-- ===== src/Audio/Channels/Cells.antt =====
-- The places of the samples: sample `chan` of frame `frame`, in a block whose frames have `channels`
-- samples of `ss` bytes.
use vban.Prelude.{ℕ, ◌+◌, ◌*◌, ◌/◌, ◌≤◌, ◌<◌, ◌≡◌, sym, ap, ◌∙◌, arith}

abbrev pub cell : (ss channels frame chan : ℕ) → ℕ
cell ss channels frame chan = frame * (ss * channels) + chan * ss

quotient_lem : (d q r : ℕ) → r < d → (q * d + r) / d ≡ q
quotient_lem d q r h = grind arith

-- A quotient and a remainder are unique.
pub digits_unique :
    (d q r q' r' : ℕ) → r < d → r' < d → q * d + r ≡ q' * d + r' → (q ≡ q') × (r ≡ r')
digits_unique d q r q' r' h h' e =
    let same : q ≡ q' =
      sym (quotient_lem d q r h) ∙ ap (λ (t : ℕ). t / d) e ∙ quotient_lem d q' r' h' in
    (same, omega (arith, ap (λ (t : ℕ). t * d) same))

-- Two places that share a byte are the same place.
pub cell_unique :
    (ss m f c b f' c' b' : ℕ)
    → b < ss
    → b' < ss
    → c < m
    → c' < m
    → cell ss m f c + b ≡ cell ss m f' c' + b'
    → (f ≡ f') × (c ≡ c') × (b ≡ b')
cell_unique ss m f c b f' c' b' hb hb' hc hc' e =
    let inner = digits_unique ss (f * m + c) b (f' * m + c') b' hb hb' (omega arith) in
    let outer = digits_unique m f c f' c' hc hc' inner.0 in (outer.0, outer.1, inner.1)

-- Every place of the first `frames` frames lies inside them.
pub cell_inside :
    (ss m f c frames : ℕ) → f < frames → c < m → cell ss m f c + ss ≤ frames * (ss * m)
cell_inside ss m f c frames hf hc = grind arith
