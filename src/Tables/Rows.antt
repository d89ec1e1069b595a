-- ===== src/Tables/Rows.antt =====
-- What a database promises of the order of rows, and the events of one stream in the order of
-- their versions.
use python_event_sourcery.Prelude.{
  find, ℕ, ◌≤◌, ◌<◌, some, Bool, true, false, ◌&&◌, List, [], ◌∷◌, ◌++◌, select, if◌then◌else◌, ◌≡◌,
  ◌∙◌, ap, sym, subst, refl, arith, Bool-cases, inl, inr, all, not, map, ◌==◌, nat_key, nat_refl,
  nat_beq, ◌⊎◌,
}
use python_event_sourcery.Tables.{EventRow, SnapshotRow, StreamRow, RowOrder, newer_than, first_row}

-- The versions grow, from above `p` on, and none is above `v`.
abbrev pub IsUpTo : ℕ → ℕ → List EventRow → Type 0
IsUpTo p v [] = p ≤ v
IsUpTo p v (e ∷ rest) = (w : ℕ) × (e.version ≡ some w) × (p < w) × IsUpTo w v rest

-- The last of the rows is newer than all others.
abbrev pub IsOlder : ℕ → List SnapshotRow → Type 0
IsOlder time [] = Unit
IsOlder time (s ∷ rest) = (s.created_at < time) × IsOlder time rest

-- ORDER BY leaves rows that stand in the order as they are, when no two are equal in it; the
-- newest row comes first in a descending order.
pub record IsRowOrder (order : RowOrder) : Type 0 where
  pub by_version-increasing :
      (p v : ℕ) (rows : List EventRow) → IsUpTo p v rows → order.by_version rows ≡ rows
  pub by_created_at_desc-newest :
      (rows : List SnapshotRow) (s : SnapshotRow)
      → IsOlder s.created_at rows
      → first_row (order.by_created_at_desc (rows ++ s ∷ [])) ≡ some s
  pub by_created_at_desc-nil : order.by_created_at_desc [] ≡ []

pub IsUpTo-weaken : (p q v : ℕ) (rows : List EventRow) → p ≤ q → IsUpTo q v rows → IsUpTo p v rows
IsUpTo-weaken p q v [] h k = omega arith
IsUpTo-weaken p q v (e ∷ rest) h k = (k.0, k.1, omega (arith, k.2), k.3)

pub IsUpTo-append :
    (p v u : ℕ) (xs ys : List EventRow) → IsUpTo p v xs → IsUpTo v u ys → IsUpTo p u (xs ++ ys)
IsUpTo-append p v u [] ys h k = IsUpTo-weaken p v u ys h k
IsUpTo-append p v u (e ∷ xs) ys h k = (h.0, h.1, h.2, IsUpTo-append h.0 v u xs ys h.3 k)

pub IsUpTo-select :
    (keep : EventRow → Bool) (p v : ℕ) (rows : List EventRow)
    → IsUpTo p v rows
    → IsUpTo p v (select keep rows)
IsUpTo-select keep p v [] h = h
IsUpTo-select keep p v (e ∷ rest) h =
    let later = IsUpTo-select keep h.0 v rest h.3 in
    elim (Bool-cases (keep e)) [
      | inl kept ↦ rw kept (h.0, h.1, h.2, later)
      | inr dropped ↦
          rw dropped (IsUpTo-weaken p h.0 v (select keep rest) (omega (arith, h.2)) later)
    ]

pub select-select {ℓ} :
    {A : Type ℓ} (p q : A → Bool) (xs : List A)
    → select (λ x. p x && q x) xs ≡ select q (select p xs)
select-select p q [] = refl
select-select p q (x ∷ xs) = ground (arith, select-select p q xs)

-- Rows above `v` are newer than a snapshot that is not.
pub select-newer_than :
    (s p u : ℕ) (rows : List EventRow)
    → s ≤ p
    → IsUpTo p u rows
    → select (λ e. newer_than s e.version) rows ≡ rows
select-newer_than s p u [] h k = refl
select-newer_than s p u (e ∷ rest) h k =
    let newer : newer_than s e.version ≡ true = rw (k.1) (ground (arith, k.2)) in
    rw (newer, select-newer_than s k.0 u rest (omega (arith, k.2)) k.3) refl

-- Each row has a number of its own.
abbrev pub IsDistinct : List StreamRow → Type 0
IsDistinct [] = Unit
IsDistinct (r ∷ rest) = (all (λ x. not (r.id == x.id)) rest ≡ true) × IsDistinct rest

abbrev pub In : StreamRow → List StreamRow → Type 0
In x [] = ⊥
In x (y ∷ ys) = (x ≡ y) ⊎ In x ys

pub In-select :
    (p : StreamRow → Bool) (xs : List StreamRow) (x : StreamRow) (rest : List StreamRow)
    → select p xs ≡ x ∷ rest
    → In x xs × (p x ≡ true)
In-select p [] x rest h = absurd (ground arith)
In-select p (y ∷ ys) x rest h = elim (Bool-cases (p y)) [
  | inl kept ↦ (inl (ground arith), ground arith)
  | inr dropped ↦ let later = In-select p ys x rest (ground arith) in (inr later.0, later.1)
]

-- A row whose number all rows of the list differ from
abbrev pub is_apart : ℕ → StreamRow → Bool
is_apart id r = not (id == r.id)

all-is_apart :
    (id : ℕ) (x : StreamRow) (rows : List StreamRow)
    → all (is_apart id) rows ≡ true
    → In x rows
    → nat_beq id x.id ≡ false
all-is_apart id x [] h k = absurd k
all-is_apart id x (r ∷ rest) h (inl e) = rw e (ground arith)
all-is_apart id x (r ∷ rest) h (inr k) = all-is_apart id x rest (ground arith) k

select-is_apart :
    (id : ℕ) (rows : List StreamRow)
    → all (is_apart id) rows ≡ true
    → select (λ r. r.id == id) rows ≡ []
select-is_apart id [] h = refl
select-is_apart id (r ∷ rest) h = ground (arith, select-is_apart id rest)

-- A number finds one row.
pub select-IsDistinct :
    (x : StreamRow) (rows : List StreamRow)
    → IsDistinct rows
    → In x rows
    → select (λ r. r.id == x.id) rows ≡ x ∷ []
select-IsDistinct x [] h k = absurd k
select-IsDistinct x (r ∷ rest) h (inl e) =
    subst (λ z. select (λ r'. r'.id == z.id) (r ∷ rest) ≡ z ∷ []) (sym e)
      (ground (arith, nat_refl r.id, select-is_apart r.id rest h.0))
select-IsDistinct x (r ∷ rest) h (inr k) =
    let apart = all-is_apart r.id x rest h.0 k in rw (apart, select-IsDistinct x rest h.1 k) refl

-- Two rows of one number are one row.
pub In-same_id :
    (x y : StreamRow) (rows : List StreamRow)
    → IsDistinct rows
    → In x rows
    → In y rows
    → x.id == y.id ≡ true
    → x ≡ y
In-same_id x y [] h k l e = absurd k
In-same_id x y (r ∷ rest) h (inl k) (inl l) e = k ∙ sym l
In-same_id x y (r ∷ rest) h (inl k) (inr l) e =
    let apart = all-is_apart r.id y rest h.0 l in absurd (ground (arith, ap (λ z. z.id) k))
In-same_id x y (r ∷ rest) h (inr k) (inl l) e =
    let apart = all-is_apart r.id x rest h.0 k in absurd (ground (arith, ap (λ z. z.id) l))
In-same_id x y (r ∷ rest) h (inr k) (inr l) e = In-same_id x y rest h.1 k l e

-- A second filter that implies the first finds what it finds alone.
pub select-implied :
    (p q : StreamRow → Bool) (rows : List StreamRow)
    → ((r : StreamRow) → q r ≡ true → p r ≡ true)
    → select q (select p rows) ≡ select q rows
select-implied p q [] h = refl
select-implied p q (r ∷ rest) h = elim (Bool-cases (q r)) [
  | inl found ↦ ground (arith, h r found, select-implied p q rest h)
  | inr missed ↦ ground (arith, select-implied p q rest h)
]

-- A filter that does not see a change.
pub select-map :
    (p : StreamRow → Bool) (f : StreamRow → StreamRow) (rows : List StreamRow)
    → ((r : StreamRow) → p (f r) ≡ p r)
    → select p (map f rows) ≡ map f (select p rows)
select-map p f [] h = refl
select-map p f (r ∷ rest) h = ground (arith, h r, select-map p f rest h)

-- An update whose condition no row meets changes none.
pub map-unmatched :
    (p : StreamRow → Bool) (f : StreamRow → StreamRow) (rows : List StreamRow)
    → select p rows ≡ []
    → map (λ r. if p r then f r else r) rows ≡ rows
map-unmatched p f [] h = refl
map-unmatched p f (r ∷ rest) h = elim (Bool-cases (p r)) [
  | inl met ↦ absurd (ground arith)
  | inr unmet ↦ rw unmet (ap (◌∷◌ r) (map-unmatched p f rest (ground arith)))
]

-- A change that keeps the numbers keeps them distinct.
all-is_apart-map :
    (f : StreamRow → StreamRow) (id : ℕ) (rows : List StreamRow)
    → ((r : StreamRow) → (f r).id ≡ r.id)
    → all (is_apart id) rows ≡ true
    → all (is_apart id) (map f rows) ≡ true
all-is_apart-map f id [] same h = refl
all-is_apart-map f id (r ∷ rest) same h = ground (arith, same r, all-is_apart-map f id rest same)

pub IsDistinct-map :
    (f : StreamRow → StreamRow) (rows : List StreamRow)
    → ((r : StreamRow) → (f r).id ≡ r.id)
    → IsDistinct rows
    → IsDistinct (map f rows)
IsDistinct-map f [] same h = tt
IsDistinct-map f (r ∷ rest) same h = (
  subst (λ i. all (is_apart i) (map f rest) ≡ true) (sym (same r))
      (all-is_apart-map f r.id rest same h.0),
  IsDistinct-map f rest same h.1,
)

pub In-of_select :
    (p : StreamRow → Bool) (rows : List StreamRow) (x : StreamRow)
    → In x (select p rows)
    → In x rows × (p x ≡ true)
In-of_select p [] x h = absurd h
In-of_select p (r ∷ rest) x h = by_test (p r) refl h (In-of_select p rest x)
  where
    by_test :
        (b : Bool)
        → p r ≡ b
        → In x (if b then r ∷ select p rest else select p rest)
        → (In x (select p rest) → In x rest × (p x ≡ true))
        → In x (r ∷ rest) × (p x ≡ true)
    by_test true met (inl e) later = (inl e, ap p e ∙ met)
    by_test true met (inr k) later = (inr (later k).0, (later k).1)
    by_test false missed k later = (inr (later k).0, (later k).1)

pub find-some :
    (p : StreamRow → Bool) (rows : List StreamRow) (r : StreamRow)
    → find p rows ≡ some r
    → In r rows × (p r ≡ true)
find-some p [] r h = absurd (ground arith)
find-some p (x ∷ rest) r h = elim (Bool-cases (p x)) [
  | inl met ↦ (inl (ground arith), ground arith)
  | inr unmet ↦ let later = find-some p rest r (ground arith) in (inr later.0, later.1)
]

pub In-to_select :
    (p : StreamRow → Bool) (rows : List StreamRow) (x : StreamRow)
    → In x rows
    → p x ≡ true
    → In x (select p rows)
In-to_select p [] x h k = absurd h
In-to_select p (r ∷ rest) x (inl e) k = let kept : p r ≡ true = ap p (sym e) ∙ k in rw kept (inl e)
In-to_select p (r ∷ rest) x (inr h) k =
    let later = In-to_select p rest x h k in
    elim (Bool-cases (p r)) [ inl kept ↦ rw kept (inr later) | inr dropped ↦ rw dropped later ]
