-- ===== src/Options.antt =====
-- What the `get_options` of src/receptor/main.c, src/emitter/main.c and src/sendtext/main.c share: the
-- loop over what `getopt_long` returns, a character and `optarg`, which may be null.
pub mod Laws
use vban.Prelude.{ℕ, Bool, ◌||◌, List, [], ◌∷◌, Option, none, some, ◌==◌, if◌then◌else◌, ◌>>=◌, ◌-◌}
use vban.Prelude.Int.{ℤ, pos, is_zero, as_short}
use vban.Prelude.Memory.{write_block}
use vban.Prelude.CString.{char_of, strncpy}
use vban.Prelude.Scan.{atoi}
use vban.Socket.{SocketConfig}

-- The `while (1)`, for the `switch` of a tool: a case that sets `ret`, or that returns, ends the loop.
-- The list is what the calls of `getopt_long` return, before the -1.
unfoldable pub options_loop {ℓ} :
    {C : Type ℓ}
    → (ℕ → Option (List ℕ) → C → Option (ℤ × C))
    → List (ℕ × Option (List ℕ))
    → C
    → Option (ℤ × C)
options_loop handle [] config = some (pos 0, config)
options_loop handle ((c, optarg) ∷ items) config = handle c optarg config >>= λ (ret, config').
    if is_zero ret then options_loop handle items config' else some (ret, config')

-- `strncpy(dest, optarg, size - 1)`
abbrev pub copy_arg : List ℕ → ℕ → Option (List ℕ) → Option (List ℕ)
copy_arg dest size optarg = optarg >>= λ s. write_block dest 0 (strncpy (size - 1) s)

-- `atoi(optarg)`
abbrev pub int_arg : Option (List ℕ) → Option ℤ
int_arg optarg = optarg >>= atoi

-- `case 'i'`
unfoldable pub set_ip_address : SocketConfig → Option (List ℕ) → Option SocketConfig
set_ip_address socket optarg =
    copy_arg socket.ip_address 32 optarg >>= λ ip. some (record socket { ip_address = ip })

-- `case 'p'`
unfoldable pub set_port : SocketConfig → Option (List ℕ) → Option SocketConfig
set_port socket optarg = int_arg optarg >>= λ n. some (record socket { port = as_short n })

-- The test for the options that have to be given.
abbrev pub is_missing : SocketConfig → List ℕ → Bool
is_missing socket stream_name =
    char_of socket.ip_address == 0 || (is_zero socket.port || char_of stream_name == 0)
