-- ===== src/Sendtext/Options.antt =====
-- `get_options` of src/sendtext/main.c, and `main` with it.
pub mod Laws
mod Tests
use vban.Prelude.{
  ℕ, Bool, List, [], ◌∷◌, Option, none, some, replicate, ◌==◌, not, if◌then◌else◌, ◌>>=◌,
}
use vban.Prelude.Int.{ℤ, pos, is_zero, as_uint}
use vban.Logger.{initial_output_level, logger_set_output_level}
use vban.Options.{options_loop, copy_arg, int_arg, set_ip_address, set_port, is_missing}
use vban.Socket.{Net, SocketConfig, socket_out}
use vban.Sendtext.{TextConfig, sendtext_main}

-- What the loop stores into: the configuration, and the output level of the logger.
pub record TextOptions : Type 0 where
  pub config : TextConfig
  pub level : ℕ

-- The configuration behind `memset`, with the default values.
abbrev pub default_options : TextOptions
default_options = record {
  config = record {
    socket = record { direction = socket_out; ip_address = replicate 32 0; port = pos 0 };
    stream_name = replicate 16 0;
    bps = pos 0;
    ident = pos 0;
    format = pos 1;
  };
  level = initial_output_level;
}

abbrev pub with_config : TextOptions → TextConfig → Option (ℤ × TextOptions)
with_config o config = some (pos 0, record o { config = config })

abbrev pub with_socket : TextOptions → SocketConfig → Option (ℤ × TextOptions)
with_socket o socket = with_config o (record (o.config) { socket = socket })

-- The `switch`.
unfoldable pub text_option : ℕ → Option (List ℕ) → TextOptions → Option (ℤ × TextOptions)
text_option c optarg o =
    if c == b'i'
    then (set_ip_address o.config.socket optarg >>= with_socket o)
    else if c == b'p'
    then (set_port o.config.socket optarg >>= with_socket o)
    else if c == b's'
    then (copy_arg o.config.stream_name 16 optarg >>= λ name.
        with_config o (record (o.config) { stream_name = name }))
    else if c == b'b'
    then (int_arg optarg >>= λ n. with_config o (record (o.config) { bps = n }))
    else if c == b'n'
    then (int_arg optarg >>= λ n. with_config o (record (o.config) { ident = n }))
    else if c == b'f'
    then (int_arg optarg >>= λ n. with_config o (record (o.config) { format = n }))
    else if c == b'l'
    then (int_arg optarg >>= λ n. some (pos 0, record o { level = logger_set_output_level n }))
    else some (pos 1, o)

-- The tests of `get_options` on the arguments that are no options: there is one, the message.
abbrev pub count_operands : List (List ℕ) → ℤ
count_operands [] = pos 1
count_operands (msg ∷ []) = pos 0
count_operands (msg ∷ more ∷ rest) = pos 1

-- `get_options` behind its loop.
unfoldable pub check_options : ℤ → TextConfig → List (List ℕ) → ℤ
check_options ret config operands =
    if not (is_zero ret)
    then ret
    else if is_missing config.socket config.stream_name
    then pos 1
    else count_operands operands

-- `get_options`, on a configuration that is all zero; `operands` are the arguments from `optind` on.
unfoldable pub get_options : List (ℕ × Option (List ℕ)) → List (List ℕ) → Option (ℤ × TextConfig)
get_options items operands = options_loop text_option items default_options >>= λ (ret, o).
    some (check_options ret o.config operands, o.config)

-- `argv[argc - 1]`
abbrev pub last_operand : List (List ℕ) → Option (List ℕ)
last_operand [] = none
last_operand (msg ∷ []) = some msg
last_operand (msg ∷ more ∷ rest) = last_operand (more ∷ rest)

module _ {World : Type 0} (net : Net World) where
  -- `main`; the Boolean is the answer of `calloc`.
  unfoldable pub sendtext_program :
      List (ℕ × Option (List ℕ)) → List (List ℕ) → Bool → World → Option (ℤ × World)
  sendtext_program items operands memory w = get_options items operands >>= λ (ret, config).
      if not (is_zero ret)
      then some (ret, w)
      else (last_operand operands >>= λ msg. sendtext_main net memory config msg w)
