-- ===== src/Packet/Config.antt =====
-- Stream parameters and the header: which parameters the protocol can carry, the table of the sample
-- rates, and what `packet_get_stream_config` reads from a packet that was accepted.
use vban.Prelude.{
  ℕ, zero, suc, ◌+◌, ◌*◌, ◌%◌, ◌≤◌, ◌<◌, ◌≡◌, refl, sym, ◌∙◌, ap, arith, List, [], ◌∷◌, some, true,
  length, get_or, get_elem?, get_elem?-some, get_elem?-lt, get_elem?-get_or, passes_from, passes_at,
  ◌==◌, ==_iff, bit_and-0x07, bit_and-0x1f,
}
use vban.Prelude.Int.{pos}
use vban.Prelude.Memory.{IsBytes}
use vban.Vban.{sr_list}
use vban.Vban.Header.{read_header}
use vban.Stream.{StreamConfig}
use vban.Packet.{packet_check, packet_get_stream_config, sr_from, vban_sr_from_value}
use vban.Packet.Check.{packet_check_iff, sample_size_of}

-- The parameters that a packet can carry: 1 to 256 channels, a rate of the table, and a format whose
-- samples have a size.
pub record IsCarried (c : StreamConfig) : Type 0 where
  pub some_channel : 1 ≤ c.nb_channels
  pub channels : c.nb_channels ≤ 256
  pub rate_index : ℕ
  pub rate : get_elem? sr_list rate_index ≡ some c.sample_rate
  pub format : c.bit_fmt < 6

sr_from_bounds :
    (rates : List ℕ) (v i : ℕ) → (i ≤ sr_from rates v i) × (sr_from rates v i ≤ i + length rates)
unfolding sr_from
sr_from_bounds [] v i = omega arith
sr_from_bounds (r ∷ rates) v i = ground (arith, sr_from_bounds rates v (i + 1))

sr_from_rate :
    (rates : List ℕ) (v i j : ℕ)
    → sr_from rates v i ≡ i + j
    → j < length rates
    → get_elem? rates j ≡ some v
unfolding sr_from
sr_from_rate [] v i j e h = absurd (omega arith)
sr_from_rate (r ∷ rates) v i zero e h = ground (arith, sr_from_bounds rates v (i + 1))
sr_from_rate (r ∷ rates) v i (suc j) e h = ground (arith, sr_from_rate rates v (i + 1) j)

rates_found : passes_from (λ i. vban_sr_from_value (get_or sr_list i 0) == i) 21 0 ≡ true
unfolding passes_from vban_sr_from_value
rates_found = refl

-- `vban_sr_from_value` is at most 21. It finds the index of every rate of the table, and each index
-- below 21 that it returns is that of the rate that was looked for.
pub vban_sr_from_value_lem :
    (v i : ℕ)
    → (vban_sr_from_value v ≤ 21)
      × (get_elem? sr_list i ≡ some v → vban_sr_from_value v ≡ i)
      × (vban_sr_from_value v ≡ i → i < 21 → get_elem? sr_list i ≡ some v)
vban_sr_from_value_lem v i = (
  unfold vban_sr_from_value in (sr_from_bounds sr_list v 0).1,
  λ e.
      ap vban_sr_from_value (sym (get_elem?-get_or sr_list i 0 e))
      ∙ (==_iff _ i).0 (
          passes_at (λ k. vban_sr_from_value (get_or sr_list k 0) == k) 21 0 i (omega arith)
            (get_elem?-lt sr_list i e) rates_found),
  λ e h. sr_from_rate sr_list v 0 i (unfold vban_sr_from_value in omega (arith, e)) h,
)

-- A packet that `packet_check` accepts gives its stream's parameters with no fault, they are such as
-- the protocol can carry, and the packet holds 1 to 256 whole frames of them.
pub accepted_config :
    (name packet : List ℕ) (size : ℕ) (old : StreamConfig)
    → IsBytes packet
    → packet_check (some name) (some packet) size ≡ pos 0
    → (c : StreamConfig) × (packet_get_stream_config (some packet) (some old) ≡ some (pos 0, c))
      × IsCarried c
      × ((frames : ℕ) × (1 ≤ frames)
          × (frames ≤ 256)
          × (size ≡ 28 + frames * (c.nb_channels * sample_size_of c.bit_fmt)))
unfolding packet_get_stream_config read_header
accepted_config name packet size old bytes e =
    let v = (packet_check_iff name packet size bytes).0 e in
    let (rate, found) = get_elem?-some sr_list (get_or packet 4 0) v.rate in
    let sr_lem : get_or packet 4 0 % 32 ≡ get_or packet 4 0 = omega (arith, v.rate) in
    let bit_lem : get_or packet 7 0 % 8 ≡ get_or packet 7 0 = omega (arith, v.format) in
    (
      record {
        nb_channels = get_or packet 6 0 + 1;
        sample_rate = rate;
        bit_fmt = get_or packet 7 0;
      },
      rw (bit_and-0x1f, bit_and-0x07, sr_lem, bit_lem, found),
      record {
        some_channel = omega arith;
        channels = omega (arith, bytes 6);
        rate_index = get_or packet 4 0;
        rate = found;
        format = v.format;
      },
      (get_or packet 5 0 + 1, omega arith, omega (arith, bytes 5), omega (arith, v.whole)),
    )
