-- ===== src/Broker/Shared/Sorted.antt =====
-- The order of the consumers stays one by priority, with every id in it once.
use pulsar_lite.Prelude.{
  ℕ, false, Option, none, some, List, [], ◌∷◌, inl, inr, All, ◌==◌, if◌then◌else◌, ◌≡◌, refl, sym,
  ap, ◌∙◌, subst, arith, Bool-cases, Option-cases,
}
use pulsar_lite.Prelude.Int.{ℤ, lt_int}
use pulsar_lite.Prelude.Maps.{get, nat_key, eq_nat_sound}
use pulsar_lite.Broker.Shared.{Consumer, SharedDispatcher, consumers_in_order, ordered_consumers}
use pulsar_lite.Broker.Shared.Consumers.{
  one_later, find_place, insert_elem, or_length, position_of, remove_at,
}
use pulsar_lite.Broker.Shared.Turns.{IsSorted, IsAfter}

abbrev pub Map : Type 0
Map = List (ℕ × Consumer)

abbrev pub IsThere : Map → ℕ → Type 0
IsThere m id = (c : Consumer) × (get id m ≡ some c)

abbrev pub IsOther : ℕ → ℕ → Type 0
IsOther id j = (j == id) ≡ false

abbrev pub AllOnce : List ℕ → Type 0
AllOnce [] = Unit {0}
AllOnce (id ∷ l) = All (IsOther id) l × AllOnce l

pub record IsOrdered (d : SharedDispatcher) : Type 0 where
  pub there : All (IsThere d.consumers) d.consumer_order
  pub once : AllOnce d.consumer_order
  pub sorted : IsSorted (ordered_consumers d)

-- The maps agree on the ids of the order.
pub same-consumers_in_order :
    (m n : Map) (l : List ℕ)
    → All (λ (j : ℕ). get j m ≡ get j n) l
    → consumers_in_order m l ≡ consumers_in_order n l
unfolding consumers_in_order
same-consumers_in_order m n [] v = refl
same-consumers_in_order m n (j ∷ l) (h, v) = elim (Option-cases (get j n)) [
  | inl gone ↦ rw (consumers_in_order, h, gone) (same-consumers_in_order m n l v)
  | inr (c, at) ↦ rw (consumers_in_order, h, at) (ap (λ x. c ∷ x) (same-consumers_in_order m n l v))
]

-- Where the new id goes, in one walk.
unfoldable pub put : Map → ℕ → ℤ → List ℕ → List ℕ
put m id level [] = id ∷ []
put m id level (j ∷ l) =
    let rest = put m id level l in
    elim (get j m) [
      | none ↦ j ∷ rest
      | some e ↦ if lt_int level e.priority_level then id ∷ j ∷ l else j ∷ rest
    ]

insert_elem-later :
    (id j : ℕ) (l : List ℕ) (o : Option ℕ)
    → insert_elem (or_length (j ∷ l) (one_later o)) id (j ∷ l)
      ≡ j ∷ insert_elem (or_length l o) id l
unfolding insert_elem
insert_elem-later id j l none = refl
insert_elem-later id j l (some n) = refl

pub insert_elem-put :
    (m : Map) (id : ℕ) (level : ℤ) (l : List ℕ)
    → insert_elem (or_length l (find_place m level l)) id l ≡ put m id level l
unfolding find_place put insert_elem
insert_elem-put m id level [] = refl
insert_elem-put m id level (j ∷ l) = elim (Option-cases (get j m)) [
  | inl gone ↦
      rw (find_place, put, gone)
        (insert_elem-later id j l (find_place m level l)
          ∙ ap (λ x. j ∷ x) (insert_elem-put m id level l))
  | inr (e, at) ↦ elim (Bool-cases (lt_int level e.priority_level)) [
    | inl y ↦ rw (find_place, put, at, y, if◌then◌else◌) refl
    | inr n ↦
        rw (find_place, put, at, n, if◌then◌else◌)
          (insert_elem-later id j l (find_place m level l)
            ∙ ap (λ x. j ∷ x) (insert_elem-put m id level l))
  ]
]

pub All-put {κ} :
    (P : ℕ → Type κ) (m : Map) (id : ℕ) (level : ℤ) (l : List ℕ)
    → P id
    → All P l
    → All P (put m id level l)
unfolding put
All-put P m id level [] h v = (h, tt)
All-put P m id level (j ∷ l) h (w, v) = elim (Option-cases (get j m)) [
  | inl gone ↦ rw (put, gone) (w, All-put P m id level l h v)
  | inr (e, at) ↦ elim (Bool-cases (lt_int level e.priority_level)) [
    | inl y ↦ rw (put, at, y, if◌then◌else◌) (h, (w, v))
    | inr n ↦ rw (put, at, n, if◌then◌else◌) (w, All-put P m id level l h v)
  ]
]

All-IsOther : (id : ℕ) (l : List ℕ) → All (IsOther id) l → All (λ j. IsOther j id) l
All-IsOther id [] v = tt
All-IsOther id (j ∷ l) (h, v) = (ground arith, All-IsOther id l v)

pub AllOnce-put :
    (m : Map) (id : ℕ) (level : ℤ) (l : List ℕ)
    → All (IsOther id) l
    → AllOnce l
    → AllOnce (put m id level l)
unfolding put
AllOnce-put m id level [] h v = (tt, tt)
AllOnce-put m id level (j ∷ l) (h, hs) (w, v) =
    let h' : IsOther j id = ground arith in
    elim (Option-cases (get j m)) [
      | inl gone ↦
          rw (put, gone) (All-put (IsOther j) m id level l h' w, AllOnce-put m id level l hs v)
      | inr (e, at) ↦ elim (Bool-cases (lt_int level e.priority_level)) [
        | inl y ↦ rw (put, at, y, if◌then◌else◌) ((h, hs), (w, v))
        | inr n ↦
            rw (put, at, n, if◌then◌else◌)
              (All-put (IsOther j) m id level l h' w, AllOnce-put m id level l hs v)
      ]
    ]

pub in_order-none :
    (m : Map) (j : ℕ) (l : List ℕ)
    → get j m ≡ none
    → consumers_in_order m (j ∷ l) ≡ consumers_in_order m l
unfolding consumers_in_order
in_order-none m j l h = rw (consumers_in_order, h) refl

pub in_order-some :
    (m : Map) (j : ℕ) (l : List ℕ) (c : Consumer)
    → get j m ≡ some c
    → consumers_in_order m (j ∷ l) ≡ c ∷ consumers_in_order m l
unfolding consumers_in_order
in_order-some m j l c h = rw (consumers_in_order, h) refl

-- Where the new consumer goes.
unfoldable pub insert_by : Consumer → List Consumer → List Consumer
insert_by c [] = c ∷ []
insert_by c (e ∷ l) =
    if lt_int c.priority_level e.priority_level then c ∷ e ∷ l else e ∷ insert_by c l

pub put-insert_by :
    (m : Map) (id : ℕ) (c : Consumer) (l : List ℕ)
    → get id m ≡ some c
    → consumers_in_order m (put m id c.priority_level l) ≡ insert_by c (consumers_in_order m l)
unfolding put insert_by consumers_in_order
put-insert_by m id c [] at = in_order-some m id [] c at
put-insert_by m id c (j ∷ l) at = elim (Option-cases (get j m)) [
  | inl gone ↦
      rw (put, gone)
        (in_order-none m j (put m id c.priority_level l) gone
          ∙ put-insert_by m id c l at
          ∙ ap (insert_by c) (sym (in_order-none m j l gone)))
  | inr (e, is) ↦ elim (Bool-cases (lt_int c.priority_level e.priority_level)) [
    | inl y ↦
        rw (put, is, y, if◌then◌else◌)
          (in_order-some m id (j ∷ l) c at
            ∙ rw (in_order-some m j l e is, insert_by, y, if◌then◌else◌) refl)
    | inr n ↦
        rw (put, is, n, if◌then◌else◌)
          (in_order-some m j (put m id c.priority_level l) e is
            ∙ ap (λ x. e ∷ x) (put-insert_by m id c l at)
            ∙ rw (in_order-some m j l e is, insert_by, n, if◌then◌else◌) refl)
  ]
]

pub All-insert_by :
    (P : Consumer → Type 0) (c : Consumer) (l : List Consumer)
    → P c
    → All P l
    → All P (insert_by c l)
unfolding insert_by
All-insert_by P c [] h v = (h, tt)
All-insert_by P c (e ∷ l) h (w, v) = elim (Bool-cases (lt_int c.priority_level e.priority_level)) [
  | inl y ↦ rw (y, if◌then◌else◌) (h, (w, v))
  | inr n ↦ rw (n, if◌then◌else◌) (w, All-insert_by P c l h v)
]

All-IsAfter :
    (c e : Consumer) (l : List Consumer) → IsAfter c e → All (IsAfter e) l → All (IsAfter c) l
All-IsAfter c e [] h v = tt
All-IsAfter c e (b ∷ l) h (w, v) = (ground arith, All-IsAfter c e l h v)

pub IsSorted-insert_by : (c : Consumer) (l : List Consumer) → IsSorted l → IsSorted (insert_by c l)
unfolding insert_by
IsSorted-insert_by c [] v = (tt, tt)
IsSorted-insert_by c (e ∷ l) (w, v) = elim (Bool-cases (lt_int c.priority_level e.priority_level)) [
  | inl y ↦
      let order : IsAfter c e = ground arith in
      rw (y, if◌then◌else◌) ((order, All-IsAfter c e l order w), (w, v))
  | inr n ↦
      let order : IsAfter e c = ground arith in
      rw (n, if◌then◌else◌) (All-insert_by (IsAfter e) c l order w, IsSorted-insert_by c l v)
]

-- The ids without the first one that is the id.
unfoldable pub without : ℕ → List ℕ → List ℕ
without id [] = []
without id (j ∷ l) = if j == id then l else j ∷ without id l

abbrev pub removed_order : List ℕ → Option ℕ → List ℕ
removed_order l none = l
removed_order l (some n) = remove_at n l

removed_order-later :
    (j : ℕ) (l : List ℕ) (o : Option ℕ)
    → removed_order (j ∷ l) (one_later o) ≡ j ∷ removed_order l o
unfolding remove_at
removed_order-later j l none = refl
removed_order-later j l (some n) = refl

pub removed_order-position_of :
    (id : ℕ) (l : List ℕ) → removed_order l (position_of id l) ≡ without id l
unfolding position_of without remove_at
removed_order-position_of id [] = refl
removed_order-position_of id (j ∷ l) = elim (Bool-cases (j == id)) [
  | inl y ↦ rw (y, if◌then◌else◌) refl
  | inr n ↦
      rw (n, if◌then◌else◌)
        (removed_order-later j l (position_of id l)
          ∙ ap (λ x. j ∷ x) (removed_order-position_of id l))
]

pub All-without {κ} : (P : ℕ → Type κ) (id : ℕ) (l : List ℕ) → All P l → All P (without id l)
unfolding without
All-without P id [] v = tt
All-without P id (j ∷ l) (h, v) = elim (Bool-cases (j == id)) [
  | inl y ↦ rw (y, if◌then◌else◌) v
  | inr n ↦ rw (n, if◌then◌else◌) (h, All-without P id l v)
]

pub AllOnce-without :
    (id : ℕ) (l : List ℕ) → AllOnce l → AllOnce (without id l) × All (IsOther id) (without id l)
unfolding without
AllOnce-without id [] v = (tt, tt)
AllOnce-without id (j ∷ l) (w, v) = elim (Bool-cases (j == id)) [
  | inl y ↦ rw (y, if◌then◌else◌) (v, subst (λ k. All (IsOther k) l) (eq_nat_sound j id y) w)
  | inr n ↦
      let (once, other) = AllOnce-without id l v in
      rw (n, if◌then◌else◌) ((All-without (IsOther j) id l w, once), (n, other))
]
