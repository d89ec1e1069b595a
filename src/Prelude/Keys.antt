-- ===== src/Prelude/Keys.antt =====
-- What a Python dictionary needs of its keys: `__eq__`, an equivalence that need not be the path.
use Prim.Native.Nat.{ℕ}
use Prim.Native.String.{String}
use mathlib.Core.Path.{◌≡◌, refl}
use mathlib.Core.Logic.{◌↔◌}
use mathlib.Core.Bool.{Bool, true, false, ◌&&◌}
use mathlib.Core.Option.{Option, none, some}
use mathlib.Core.List.{List, [], ◌∷◌}
use native.Mathlib.Omega.{arith}
use text.Mathlib.Text.{◌==◌ as str_eq}
use text.Mathlib.TextEquality.{eq_iff}
use python_event_sourcery.Prelude.Tests.{nat_beq}

pub record Key {ℓ} (K : Type ℓ) : Type ℓ where
  pub same : K → K → Bool
  pub same_refl : (a : K) → same a a ≡ true
  pub same_symm : (a b : K) → same a b ≡ same b a
  pub same_cong : (a b c : K) → same a b ≡ true → same a c ≡ same b c

infix 50 ◌==◌
abbrev pub ◌==◌ {ℓ} : {K : Type ℓ} ⦃k : Key K⦄ → K → K → Bool
◌==◌ ⦃k⦄ = k.same

pub nat_refl : (a : ℕ) → nat_beq a a ≡ true
nat_refl a = ground arith

pub nat_symm : (a b : ℕ) → nat_beq a b ≡ nat_beq b a
nat_symm a b = ground arith

pub nat_cong : (a b c : ℕ) → nat_beq a b ≡ true → nat_beq a c ≡ nat_beq b c
nat_cong a b c h = ground arith

instance abbrev pub nat_key : Key ℕ
nat_key = record {
  same = nat_beq;
  same_refl = nat_refl;
  same_symm = nat_symm;
  same_cong = nat_cong;
}

pub string_refl : (a : String) → str_eq a a ≡ true
string_refl a = (eq_iff a a).1 refl

pub string_symm : (a b : String) → str_eq a b ≡ str_eq b a
string_symm a b = ground (arith, eq_iff a b, eq_iff b a)

pub string_cong : (a b c : String) → str_eq a b ≡ true → str_eq a c ≡ str_eq b c
string_cong a b c h = ground (arith, eq_iff a b, eq_iff a c, eq_iff b c)

instance abbrev pub string_key : Key String
string_key = record {
  same = str_eq;
  same_refl = string_refl;
  same_symm = string_symm;
  same_cong = string_cong;
}

pub string_iff : (a b : String) → ((a == b) ≡ true) ↔ (a ≡ b)
string_iff = eq_iff

module _ {ℓ} {K : Type ℓ} ⦃k : Key K⦄ where
  abbrev option_same : Option K → Option K → Bool
  option_same none none = true
  option_same none (some b) = false
  option_same (some a) none = false
  option_same (some a) (some b) = a == b

  pub option_refl : (a : Option K) → option_same a a ≡ true
  option_refl none = refl
  option_refl (some a) = k.same_refl a

  pub option_symm : (a b : Option K) → option_same a b ≡ option_same b a
  option_symm none none = refl
  option_symm none (some b) = refl
  option_symm (some a) none = refl
  option_symm (some a) (some b) = k.same_symm a b

  pub option_cong : (a b c : Option K) → option_same a b ≡ true → option_same a c ≡ option_same b c
  option_cong none none c h = refl
  option_cong none (some b) c h = cc
  option_cong (some a) none c h = cc
  option_cong (some a) (some b) none h = refl
  option_cong (some a) (some b) (some c) h = k.same_cong a b c h

  instance abbrev pub option_key : Key (Option K)
  option_key = record {
    same = option_same;
    same_refl = option_refl;
    same_symm = option_symm;
    same_cong = option_cong;
  }

module _ {ℓ} {K : Type ℓ} ⦃k : Key K⦄ where
  abbrev list_same : List K → List K → Bool
  list_same [] [] = true
  list_same [] (b ∷ bs) = false
  list_same (a ∷ as') [] = false
  list_same (a ∷ as') (b ∷ bs) = (a == b) && list_same as' bs

  pub list_refl : (a : List K) → list_same a a ≡ true
  list_refl [] = refl
  list_refl (a ∷ as') = ground (arith, k.same_refl a, list_refl as')

  pub list_symm : (a b : List K) → list_same a b ≡ list_same b a
  list_symm [] [] = refl
  list_symm [] (b ∷ bs) = refl
  list_symm (a ∷ as') [] = refl
  list_symm (a ∷ as') (b ∷ bs) = ground (arith, k.same_symm a b, list_symm as' bs)

  pub list_cong : (a b c : List K) → list_same a b ≡ true → list_same a c ≡ list_same b c
  list_cong [] [] c h = refl
  list_cong [] (b ∷ bs) c h = cc
  list_cong (a ∷ as') [] c h = cc
  list_cong (a ∷ as') (b ∷ bs) [] h = refl
  list_cong (a ∷ as') (b ∷ bs) (c ∷ cs) h = ground (arith, k.same_cong a b c, list_cong as' bs cs)

  instance abbrev pub list_key : Key (List K)
  list_key = record {
    same = list_same;
    same_refl = list_refl;
    same_symm = list_symm;
    same_cong = list_cong;
  }

module _ {ℓ κ} {K : Type ℓ} {L : Type κ} ⦃k : Key K⦄ ⦃l : Key L⦄ where
  abbrev pair_same : K × L → K × L → Bool
  pair_same a b = (a.0 == b.0) && (a.1 == b.1)

  pub pair_refl : (a : K × L) → pair_same a a ≡ true
  pair_refl a = ground (arith, k.same_refl a.0, l.same_refl a.1)

  pub pair_symm : (a b : K × L) → pair_same a b ≡ pair_same b a
  pair_symm a b = ground (arith, k.same_symm a.0 b.0, l.same_symm a.1 b.1)

  pub pair_cong : (a b c : K × L) → pair_same a b ≡ true → pair_same a c ≡ pair_same b c
  pair_cong a b c h = ground (arith, k.same_cong a.0 b.0 c.0, l.same_cong a.1 b.1 c.1)

  instance abbrev pub pair_key : Key (K × L)
  pair_key = record {
    same = pair_same;
    same_refl = pair_refl;
    same_symm = pair_symm;
    same_cong = pair_cong;
  }
