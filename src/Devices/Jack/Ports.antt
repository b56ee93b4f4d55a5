-- ===== src/Devices/Jack/Ports.antt =====
-- The array of ports of the JACK device: stores into it.
use vban.Prelude.{
  ℕ, zero, suc, ◌≡◌, ◌<◌, refl, ap, arith, List, [], ◌∷◌, Option, some, some_inj, >>=-some, length,
  get_elem?,
}
use vban.Devices.Jack.{set_port}

-- A store inside the array succeeds, and keeps its size.
pub set_port-some :
    {P : Type 0} (ports : List (Option P)) (i : ℕ) (p : Option P)
    → i < length ports
    → (ports' : List (Option P)) × (set_port ports i p ≡ some ports')
      × (length ports' ≡ length ports)
unfolding set_port
set_port-some [] i p lt = absurd (omega arith)
set_port-some (q ∷ ports) zero p lt = (p ∷ ports, refl, refl)
set_port-some (q ∷ ports) (suc i) p lt =
    let (ports', sets, same) = set_port-some ports i p (omega (arith, lt)) in
    (q ∷ ports', rw sets refl, ap suc same)

pub get_elem?-set_port :
    {P : Type 0} (ports : List (Option P)) (i : ℕ) (p : Option P) {ports' : List (Option P)}
    → set_port ports i p ≡ some ports'
    → get_elem? ports' i ≡ some p
unfolding set_port
get_elem?-set_port [] i p e = absurd (cc)
get_elem?-set_port (q ∷ ports) zero p e = rw (← some_inj e) refl
get_elem?-set_port (q ∷ ports) (suc i) p e =
    let (rest, sets, same) = >>=-some (set_port ports i p) _ e in
    rw (← some_inj same) (get_elem?-set_port ports i p sets)

pub set_port_before :
    {P : Type 0} (ports : List (Option P)) (i : ℕ) (p : Option P) (j : ℕ) {ports' : List (Option P)}
    → j < i
    → set_port ports i p ≡ some ports'
    → get_elem? ports' j ≡ get_elem? ports j
unfolding set_port
set_port_before [] i p j lt e = absurd (cc)
set_port_before (q ∷ ports) zero p j lt e = absurd (omega arith)
set_port_before (q ∷ ports) (suc i) p zero lt e =
    let (rest, sets, same) = >>=-some (set_port ports i p) _ e in rw (← some_inj same) refl
set_port_before (q ∷ ports) (suc i) p (suc j) lt e =
    let (rest, sets, same) = >>=-some (set_port ports i p) _ e in
    rw (← some_inj same) (set_port_before ports i p j (omega (arith, lt)) sets)
