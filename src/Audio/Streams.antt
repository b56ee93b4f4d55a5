-- ===== src/Audio/Streams.antt =====
-- `audio_set_stream_config`: when the device is opened, and for which parameters.
use vban.Prelude.{
  sym, ◌∙◌, ap, some_inj, ◌<◌, ℕ, ◌≡◌, ◌≢◌, ◌⊎◌, inl, inr, refl, arith, true, false, List, some,
  Bool-cases,
}
use vban.Prelude.Int.{ℤ, pos, is_negative}
use vban.Stream.{StreamConfig}
use vban.Packet.{no_config}
use vban.Audio.{
  Audio, get_device_config, open_stream, change_stream, same_stream, audio_set_stream_config,
}
use vban.Audio.Interface.{Backend, Direction}

same_stream-eq : (s t : StreamConfig) → same_stream s t ≡ true → s ≡ t
same_stream-eq s t h = ground arith

same_stream_refl : (s : StreamConfig) → same_stream s s ≡ true
same_stream_refl s = ground arith

pub set_stream_same :
    {Device : Type 0} (b : Backend Device) (a : Audio Device) (c : StreamConfig)
    → a.stream ≡ c
    → audio_set_stream_config b (some a) (some c) ≡ (pos 0, some a)
unfolding audio_set_stream_config
set_stream_same b a c stream = rw stream (rw same_stream_refl)

-- `Opened d c` says that a device is open for the parameters `c`; a successful open makes it so.
module _ {Device : Type 0} (b : Backend Device) (Opened : Device → StreamConfig → Type 0)
    (opens : (d : Device) (name : List ℕ) (dir : Direction) (size : ℕ) (c : StreamConfig)
      → is_negative (b.open_device d name dir size c).0 ≡ false
      → Opened (b.open_device d name dir size c).1 c) where
  -- No stream is set yet, or the device is open for the stream as the map changes it.
  abbrev pub IsSettled : Audio Device → Type 0
  IsSettled a = (a.stream ≡ no_config) ⊎ Opened a.device (get_device_config a)

  -- What a call leaves behind.
  pub record IsConfigured (a : Audio Device) (c : StreamConfig) (ret : ℤ) (a' : Audio Device)
      : Type 0 where
    pub same_config : a'.config ≡ a.config
    pub same_map : a'.map ≡ a.map
    pub same_buffer : a'.buffer ≡ a.buffer
    pub done : is_negative ret ≡ false → (a'.stream ≡ c) × Opened a'.device (get_device_config a')
    pub failed : is_negative ret ≡ true → (a'.stream ≡ no_config) ⊎ (a'.stream ≡ a.stream)

  open_stream-IsConfigured :
      (a : Audio Device)
      → (a' : Audio Device) × ((open_stream b a).1 ≡ some a')
        × IsConfigured a a.stream (open_stream b a).0 a'
        × (is_negative (open_stream b a).0 ≡ true → a'.stream ≡ no_config)
  unfolding open_stream get_device_config
  open_stream-IsConfigured a =
      let config = get_device_config a in
      let opened =
        b.open_device a.device a.config.device_name a.config.direction a.config.buffer_size
          config in
      elim (Bool-cases (is_negative opened.0)) [
        | inl neg ↦ (
          record a { device = opened.1; stream = no_config },
          rw neg,
          record {
            same_config = refl;
            same_map = refl;
            same_buffer = refl;
            done = λ h. absurd (ground arith);
            failed = λ _. inl refl;
          },
          λ _. refl,
        )
        | inr good ↦ (
          record a { device = opened.1 },
          rw good,
          record {
            same_config = refl;
            same_map = refl;
            same_buffer = refl;
            done = λ _. (
              refl,
              opens a.device a.config.device_name a.config.direction a.config.buffer_size config
                  good,
            );
            failed = λ h. absurd (ground arith);
          },
          λ h. absurd (ground arith),
        )
      ]

  change_stream-IsConfigured :
      (a : Audio Device) (c : StreamConfig)
      → (a' : Audio Device) × ((change_stream b a c).1 ≡ some a')
        × IsConfigured a c (change_stream b a c).0 a'
  unfolding change_stream
  change_stream-IsConfigured a c =
      let closed = b.close_device a.device in
      elim (Bool-cases (is_negative closed.0)) [
        | inl neg ↦ (
          record a { device = closed.1 },
          rw neg,
          record {
            same_config = refl;
            same_map = refl;
            same_buffer = refl;
            done = λ h. absurd (ground arith);
            failed = λ _. inr refl;
          },
        )
        | inr good ↦
            let (a', e, v, forgets) =
              open_stream-IsConfigured (record a { device = closed.1; stream = c }) in
            (
              a',
              rw good e,
              rw good (record {
                same_config = v.same_config;
                same_map = v.same_map;
                same_buffer = v.same_buffer;
                done = v.done;
                failed = λ h. inl (forgets h);
              }),
            )
      ]

  pub set_stream-IsConfigured :
      (a : Audio Device) (c : StreamConfig)
      → c ≢ no_config
      → IsSettled a
      → (a' : Audio Device) × ((audio_set_stream_config b (some a) (some c)).1 ≡ some a')
        × IsConfigured a c (audio_set_stream_config b (some a) (some c)).0 a'
  unfolding audio_set_stream_config
  set_stream-IsConfigured a c some_stream settled = elim (Bool-cases (same_stream a.stream c)) [
    | inl same ↦ (
      a,
      rw same,
      rw same (record {
        same_config = refl;
        same_map = refl;
        same_buffer = refl;
        done = λ _. (same_stream-eq a.stream c same, was_open same);
        failed = λ h. absurd (ground arith);
      }),
    )
    | inr differs ↦
        let (a', e, v) = change_stream-IsConfigured a c in (a', rw differs e, rw differs v)
  ]
    where
      was_open : same_stream a.stream c ≡ true → Opened a.device (get_device_config a)
      was_open same = elim settled [
        | inl none_set ↦ absurd (some_stream (sym (same_stream-eq a.stream c same) ∙ none_set))
        | inr opened ↦ opened
      ]

  -- On a settled object, after a call that did not fail, the next call with the same parameters returns
  -- 0 and changes nothing.
  pub set_stream_again :
      (a a' : Audio Device) (c : StreamConfig)
      → c ≢ no_config
      → IsSettled a
      → is_negative (audio_set_stream_config b (some a) (some c)).0 ≡ false
      → (audio_set_stream_config b (some a) (some c)).1 ≡ some a'
      → audio_set_stream_config b (some a') (some c) ≡ (pos 0, some a')
  set_stream_again a a' c some_stream settled good e =
      let (x, e', v) = set_stream-IsConfigured a c some_stream settled in
      let same : x ≡ a' = cc in
      let stream_lem : a'.stream ≡ c = rw same at (v.done good).0 in
      set_stream_same b a' c stream_lem

-- An audio object that took the parameters has them, and the map and the buffer from before.
pub set_stream_done :
    {Device : Type 0} (b : Backend Device) (a a' : Audio Device) (c : StreamConfig) (ret : ℤ)
    → 0 < c.nb_channels
    → audio_set_stream_config b (some a) (some c) ≡ (ret, some a')
    → is_negative ret ≡ false
    → (a'.stream ≡ c) × (a'.map ≡ a.map) × (a'.buffer ≡ a.buffer)
set_stream_done b a a' c ret some_channel sets good =
    let (x, e, v) =
      set_stream-IsConfigured b (λ d c. Unit {0}) (λ d name dir size c h. tt) a c
        (λ none_set.
          let none_counted : c.nb_channels ≡ 0 = ap (λ s. s.nb_channels) none_set in
          omega (arith, some_channel))
        (inr tt) in
    let same : x ≡ a' = some_inj (sym e ∙ ap (λ r. r.1) sets) in
    let nonneg : is_negative (audio_set_stream_config b (some a) (some c)).0 ≡ false =
      ap (λ r. is_negative r.0) sets ∙ good in
    let done : (x.stream ≡ c) × (x.map ≡ a.map) × (x.buffer ≡ a.buffer) =
      ((v.done nonneg).0, v.same_map, v.same_buffer) in
    rw same at done
