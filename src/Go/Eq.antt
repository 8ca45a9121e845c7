-- ===== src/Go/Eq.antt =====
-- Go's comparable types: a key type with its ==.
use portfoliodb.Common.{◌≡◌, ◌↔◌, Bool, true, ◌&&◌, arith, refl, ℕ, ◌==◌ as nat_eq, ==_iff}

pub record Eq (K : Type 0) : Type 0 where
  pub beq : K → K → Bool
  pub beq_iff : (a b : K) → (beq a b ≡ true) ↔ (a ≡ b)

module _ {K : Type 0} ⦃e : Eq K⦄ where
  abbrev pub eqb : K → K → Bool
  eqb = e.beq

  pub eqb_iff : (a b : K) → (eqb a b ≡ true) ↔ (a ≡ b)
  eqb_iff = e.beq_iff

  pub eqb_refl : (a : K) → eqb a a ≡ true
  eqb_refl a = (e.beq_iff a a).1 refl

  pub eqb_of : (a b : K) → a ≡ b → eqb a b ≡ true
  eqb_of a b h = (e.beq_iff a b).1 h

  pub eqb_to : (a b : K) → eqb a b ≡ true → a ≡ b
  eqb_to a b h = (e.beq_iff a b).0 h

instance abbrev pub nat_eq_lawful : Eq ℕ
nat_eq_lawful = record { beq = nat_eq; beq_iff = ==_iff }

module _ {J K : Type 0} ⦃e : Eq J⦄ ⦃f : Eq K⦄ where
  abbrev pub pair_beq : J × K → J × K → Bool
  pair_beq p q = e.beq p.0 q.0 && f.beq p.1 q.1

  pub pair_beq_iff : (p q : J × K) → (pair_beq p q ≡ true) ↔ (p ≡ q)
  pair_beq_iff p q = (
    λ h. ground (arith, e.beq_iff p.0 q.0, f.beq_iff p.1 q.1),
    λ h. ground (arith, e.beq_iff p.0 q.0, f.beq_iff p.1 q.1),
  )

instance abbrev pub pair_eq : {J K : Type 0} ⦃e : Eq J⦄ ⦃f : Eq K⦄ → Eq (J × K)
pair_eq = record { beq = pair_beq; beq_iff = pair_beq_iff }
