-- ===== src/ManagedLedger/EntryLog/Opening.antt =====
-- A store that is opened starts a file of its own, while there is a number for one.
use pulsar_lite.Prelude.{
  ℕ, ◌+◌, ◌-◌, ◌^◌, ◌≤◌, ◌<◌, max, ltb, if◌then◌else◌, none, some, List, [], ◌∷◌, ◌==◌, ◌≡◌, ◌⊎◌,
  inl, inr, refl, ap, sym, ◌∙◌, arith, beq_eq, beq_ne, Bool-cases,
}
use pulsar_lite.Prelude.Maps.{get, nat_key}
use pulsar_lite.Prelude.Results.{Result, ok, err, ◌>>=◌}
use pulsar_lite.ManagedLedger.EntryLog.{
  Files, WriteState, create_file, OpenError, file_id_overflow, checked_next, next_entry_log_file_id,
  open_state,
}
use pulsar_lite.ManagedLedger.EntryLog.Reads.{IsOpen, append_to-get, append_to-get_other}

-- The highest of the ids and the one before them.
record IsHighest (files : Files) (before m : ℕ) : Type 0 where
  from_before : before ≤ m
  none_above : (j : ℕ) → m < j → get j files ≡ none
  is_there : (m ≡ before) ⊎ ((bytes : List ℕ) × (get m files ≡ some bytes))

last_of :
    (id before m : ℕ) (bytes : List ℕ) (files : Files)
    → (m ≡ max before id) ⊎ ((old : List ℕ) × (get m files ≡ some old))
    → (m ≡ before) ⊎ ((old : List ℕ) × (get m ((id, bytes) ∷ files) ≡ some old))
unfolding get
last_of id before m bytes files h = elim (Bool-cases (id == m)) [
  | inl same ↦ inr (bytes, rw (same, if◌then◌else◌) refl)
  | inr other ↦ elim h [
    | inl top ↦ inl (ground arith)
    | inr (old, there) ↦ inr (old, rw (other, if◌then◌else◌) there)
  ]
]

-- The number is the one past the highest id.
next_some :
    (files : Files) (before : ℕ)
    → (m : ℕ) × (next_entry_log_file_id files (some before) ≡ checked_next m)
      × IsHighest files before m
unfolding next_entry_log_file_id get
next_some [] before = (
  before,
  refl,
  record { from_before = omega arith; none_above = λ j h. refl; is_there = inl refl },
)
next_some ((id, bytes) ∷ files) before =
    let (m, is, top) = next_some files (max before id) in
    let least = top.from_before in
    (
      m,
      is,
      record {
        from_before = omega arith;
        none_above = λ j h. rw (beq_ne id j (omega arith), if◌then◌else◌) (top.none_above j h);
        is_there = last_of id before m bytes files top.is_there;
      },
    )

-- What opening comes to: a state that is open on a new file, with every other file as it was and
-- no id from it on taken before; or the error, and then the last id of a u64 is taken.
abbrev pub IsOpened : Files → ℕ → Result OpenError (WriteState × Files) → Type 0
IsOpened files limit (ok (s, after)) =
    IsOpen s after
    × (s.log_size_limit ≡ limit)
    × (s.active_file_id < 2 ^ 64)
    × (s.active_offset ≡ 0)
    × ((j : ℕ) → s.active_file_id ≤ j → get j files ≡ none)
    × ((j : ℕ) (bytes : List ℕ) → get j files ≡ some bytes → get j after ≡ some bytes)
IsOpened files limit (err file_id_overflow) =
    (bytes : List ℕ) × (get (2 ^ 64 - 1) files ≡ some bytes)

fresh-IsOpened :
    (files : Files) (limit next : ℕ)
    → next < 2 ^ 64
    → ((j : ℕ) → next ≤ j → get j files ≡ none)
    → IsOpened files limit (
        ok (
          record { log_size_limit = limit; active_file_id = next; active_offset = 0; file = next },
          create_file next files,
        ))
fresh-IsOpened files limit next low free = (
  record {
    is_active = refl;
    has_offset = (
      [],
      append_to-get next next [] files ∙ rw (beq_eq next next refl, free next (omega arith)) refl,
      refl,
    );
    is_last = λ j h. append_to-get_other next j [] files (omega arith) ∙ free j (omega arith);
  },
  refl,
  low,
  refl,
  free,
  λ j bytes h.
      append_to-get_other next j [] files
        (λ e. cc (h, free next (omega arith), ap (λ k. get k files) e))
      ∙ h,
)

-- The highest id is the last one, or there is a number past it.
checked_next-IsOpened :
    (files : Files) (limit m : ℕ)
    → ((j : ℕ) → 2 ^ 64 ≤ j → get j files ≡ none)
    → ((j : ℕ) → m < j → get j files ≡ none)
    → ((bytes : List ℕ) × (get m files ≡ some bytes))
    → IsOpened files limit (
        checked_next m >>= λ id. ok (
          record { log_size_limit = limit; active_file_id = id; active_offset = 0; file = id },
          create_file id files,
        ))
checked_next-IsOpened files limit m typed above (bytes, there) =
    elim (Bool-cases (ltb (m + 1) (2 ^ 64))) [
      | inl room ↦
          rw (room, if◌then◌else◌)
            (fresh-IsOpened files limit (m + 1) (ground arith) (λ j h. above j (omega arith)))
      | inr full ↦
          rw (full, if◌then◌else◌)
            (elim (Bool-cases (ltb m (2 ^ 64))) [
              | inl last ↦
                  let same : m ≡ 2 ^ 64 - 1 = ground arith in
                  (bytes, ap (λ k. get k files) (sym same) ∙ there)
              | inr out ↦ absurd (cc (there, typed m (ground arith)))
            ])
    ]

-- Where the ids of the files are values of a u64: if opening the store gives an error, a file has
-- the last of these ids. If not, the active file has an id of a u64 that no file had, nor any
-- later one, and is new, open and empty; every file that was there keeps its bytes, and the limit
-- is the given one.
pub open_state_lem :
    (files : Files) (limit : ℕ)
    → ((j : ℕ) → 2 ^ 64 ≤ j → get j files ≡ none)
    → IsOpened files limit (open_state files limit)
unfolding open_state next_entry_log_file_id get
open_state_lem [] limit typed = fresh-IsOpened [] limit 0 (omega arith) (λ j h. refl)
open_state_lem ((id, bytes) ∷ files) limit typed =
    let (m, is, top) = next_some files id in
    let least = top.from_before in
    rw is (
      checked_next-IsOpened ((id, bytes) ∷ files) limit m typed
        (λ j h. rw (beq_ne id j (omega arith), if◌then◌else◌) (top.none_above j h))
        (elim (last_of id id m bytes files
          (elim top.is_there [ inl e ↦ inl (omega arith) | inr t ↦ inr t ])) [
            | inl e ↦ (bytes, rw (beq_eq id m (sym e), if◌then◌else◌) refl)
            | inr t ↦ t
          ]))
