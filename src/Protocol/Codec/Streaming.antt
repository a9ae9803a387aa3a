-- ===== src/Protocol/Codec/Streaming.antt =====
-- However the network cuts the bytes, the same frames come out.
use mathlib.Core.List.{append_assoc, append-nil}
use pulsar_lite.Prelude.{
  ℕ, zero, suc, ◌+◌, ◌<◌, false, Option, none, some, List, [], ◌∷◌, ◌++◌, length, subst,
  length-append, ltb, ltb_ge, if◌then◌else◌, ◌≡◌, ◌⊎◌, inl, inr, refl, sym, ap, ◌∙◌, arith,
  Bool-cases,
}
use pulsar_lite.Prelude.Results.{Result, ok, err}
use pulsar_lite.Prelude.Bytes.{take, drop, take-more, drop-more, length-drop, get_uint}
use pulsar_lite.Protocol.Codec.{PulsarFrame, FrameError, decode, parse_frame, max_frame_size}

abbrev Decoded : Type 0
Decoded = Result FrameError (Option PulsarFrame) × List ℕ

-- A frame or an error, and not a call for more bytes.
abbrev IsDone : Result FrameError (Option PulsarFrame) → Type 0
IsDone (ok none) = ⊥
IsDone (ok (some f)) = Unit
IsDone (err e) = Unit

parse_frame-IsDone : (frame : List ℕ) → IsDone (parse_frame frame)
unfolding parse_frame
parse_frame-IsDone frame = elim (Bool-cases (ltb (length frame) 4)) [
  | inl short ↦ rw (short, if◌then◌else◌) tt
  | inr long ↦ elim (Bool-cases (ltb (length (drop 4 frame)) (get_uint (take 4 frame)))) [
    | inl part ↦ rw (long, part, if◌then◌else◌) tt
    | inr whole ↦ rw (long, whole, if◌then◌else◌) tt
  ]
]

-- More bytes are wanted, or the bytes that follow change nothing.
decode-append :
    (a b : List ℕ)
    → (decode a ≡ (ok none, a))
      ⊎ ((decode (a ++ b) ≡ ((decode a).0, (decode a).1 ++ b)) × IsDone (decode a).0)
unfolding decode
decode-append a b = elim (Bool-cases (ltb (length a) 4)) [
  | inl short ↦ inl (rw (short, if◌then◌else◌) refl)
  | inr long ↦
      let both = length-append {0} a b in
      let enough : ltb (length (a ++ b)) 4 ≡ false = ltb_ge (length (a ++ b)) 4 (ground arith) in
      let prefix = take-more 4 a b (ground arith) in
      let size = get_uint (take 4 a) in
      elim (Bool-cases (ltb max_frame_size size)) [
        | inl large ↦ inr (rw (long, enough, prefix, large, if◌then◌else◌) (refl, tt))
        | inr fits ↦ elim (Bool-cases (ltb (length a) (4 + size))) [
          | inl part ↦ inl (rw (long, fits, part, if◌then◌else◌) refl)
          | inr whole ↦
              let whole_more : ltb (length (a ++ b)) (4 + size) ≡ false =
                ltb_ge (length (a ++ b)) (4 + size) (ground arith) in
              let cut : take size (drop 4 (a ++ b)) ≡ take size (drop 4 a) =
                ap (take size) (drop-more 4 a b (ground arith))
                ∙ take-more size (drop 4 a) b (ground (arith, length-drop 4 a)) in
              let behind = drop-more (4 + size) a b (ground arith) in
              inr (
                rw (long, enough, prefix, fits, whole, whole_more, cut, behind, if◌then◌else◌)
                  (refl, parse_frame-IsDone (take size (drop 4 a))))
        ]
      ]
]

-- Once decode is done with some bytes, those that follow are only left over.
decode-done :
    (a b : List ℕ) (d : Decoded) → decode a ≡ d → IsDone d.0 → decode (a ++ b) ≡ (d.0, d.1 ++ b)
decode-done a b d e v = elim (decode-append a b) [
  | inl more ↦ absurd (subst (λ (r : Decoded). IsDone r.0) (sym e ∙ more) v)
  | inr (same, w) ↦ same ∙ ap (λ (r : Decoded). (r.0, r.1 ++ b)) e
]

-- A frame takes its bytes out.
decode-shrinks :
    (a rest : List ℕ) (f : PulsarFrame) → decode a ≡ (ok (some f), rest) → length rest < length a
unfolding decode
decode-shrinks a rest f h = elim (Bool-cases (ltb (length a) 4)) [
  | inl short ↦ absurd (let kept = rw (short, if◌then◌else◌) at h in cc)
  | inr long ↦
      let size = get_uint (take 4 a) in
      elim (Bool-cases (ltb max_frame_size size)) [
        | inl large ↦ absurd (let kept = rw (long, large, if◌then◌else◌) at h in cc)
        | inr fits ↦ elim (Bool-cases (ltb (length a) (4 + size))) [
          | inl part ↦ absurd (let kept = rw (long, fits, part, if◌then◌else◌) at h in cc)
          | inr whole ↦
              let taken =
                ap (λ (d : Decoded). length d.1) (rw (long, fits, whole, if◌then◌else◌) at h) in
              ground (arith, taken, length-drop (4 + size) a)
        ]
      ]
]

-- A caller that decodes until more bytes are wanted or decoding fails.
pub record Drained : Type 0 where
  pub frames : List PulsarFrame
  pub left : List ℕ
  pub failed : Option FrameError

abbrev prepend : PulsarFrame → Drained → Drained
prepend f d = record d { frames = f ∷ d.frames }

abbrev after : (List ℕ → Drained) → Decoded → Drained
after again (ok none, rest) = record { frames = []; left = rest; failed = none }
after again (err e, rest) = record { frames = []; left = rest; failed = some e }
after again (ok (some f), rest) = prepend f (again rest)

decode_loop : ℕ → List ℕ → Drained
decode_loop zero src = record { frames = []; left = src; failed = none }
decode_loop (suc fuel) src = after (decode_loop fuel) (decode src)

-- A round takes bytes out, so that their number is enough fuel.
unfoldable pub decode_all : List ℕ → Drained
unfolding decode_loop
decode_all src = decode_loop (suc (length src)) src

-- The rounds after one agree, if those on fewer bytes do.
after-eq :
    (m n : ℕ) (src : List ℕ) (d : Decoded)
    → decode src ≡ d
    → ((rest : List ℕ) → length rest < length src → decode_loop m rest ≡ decode_loop n rest)
    → after (decode_loop m) d ≡ after (decode_loop n) d
after-eq m n src (ok none, rest) e ih = refl
after-eq m n src (err x, rest) e ih = refl
after-eq m n src (ok (some f), rest) e ih = ap (prepend f) (ih rest (decode-shrinks src rest f e))

-- Enough fuel is enough.
decode_loop-fuel :
    (m n : ℕ) (src : List ℕ)
    → length src < m
    → length src < n
    → decode_loop m src ≡ decode_loop n src
unfolding decode_loop
decode_loop-fuel zero n src h k = absurd (omega arith)
decode_loop-fuel (suc m) zero src h k = absurd (omega arith)
decode_loop-fuel (suc m) (suc n) src h k =
    after-eq m n src (decode src) refl
      (λ rest less. decode_loop-fuel m n rest (omega arith) (omega arith))

abbrev prepend_all : List PulsarFrame → Drained → Drained
prepend_all [] d = d
prepend_all (f ∷ fs) d = prepend f (prepend_all fs d)

-- The caller goes on with what is left, unless decoding has failed.
abbrev onward : Drained → (List ℕ → Drained) → Drained
onward d again = elim d.failed [ none ↦ prepend_all d.frames (again d.left) | some e ↦ d ]

-- The frames and the error; after an error it does not matter what is left.
abbrev pub verdict : Drained → List PulsarFrame × Option FrameError
verdict d = (d.frames, d.failed)

abbrev first_frame :
    PulsarFrame → List PulsarFrame × Option FrameError → List PulsarFrame × Option FrameError
first_frame f (fs, e) = (f ∷ fs, e)

onward-prepend :
    (f : PulsarFrame) (d : Drained) (again : List ℕ → Drained)
    → verdict (onward (prepend f d) again) ≡ first_frame f (verdict (onward d again))
onward-prepend f d again = by_failure d.failed
  where
    by_failure :
        (o : Option FrameError)
        → verdict (elim o as (λ x. Drained) [
          | none ↦ prepend_all (f ∷ d.frames) (again d.left)
          | some e ↦ prepend f d
        ])
          ≡ first_frame f (
              verdict (elim o as (λ x. Drained) [
                | none ↦ prepend_all d.frames (again d.left)
                | some e ↦ d
              ]))
    by_failure none = refl
    by_failure (some e) = refl

module _ (m n : ℕ) (a b : List ℕ) (h : length (a ++ b) < suc m) where
  after-append :
      (d : Decoded)
      → decode a ≡ d
      → ((rest : List ℕ)
          → length rest < length a
          → verdict (decode_loop m (rest ++ b))
            ≡ verdict (onward (decode_loop n rest) (λ left. decode_all (left ++ b))))
      → verdict (decode_loop (suc m) (a ++ b))
        ≡ verdict (onward (after (decode_loop n) d) (λ left. decode_all (left ++ b)))
  unfolding decode_all decode_loop
  after-append (ok none, rest) e ih = elim (decode-append a b) [
    | inl more ↦
        let same : a ≡ rest = ap (λ (d : Decoded). d.1) (sym more ∙ e) in
        ap verdict (decode_loop-fuel (suc m) (suc (length (a ++ b))) (a ++ b) h (omega arith))
        ∙ ap (λ r. verdict (decode_all (r ++ b))) same
    | inr (more, done) ↦ absurd (let gone = rw e at done in gone)
  ]
  after-append (err x, rest) e ih =
      ap (λ r. verdict (after (decode_loop m) r)) (decode-done a b (err x, rest) e tt)
  after-append (ok (some f), rest) e ih =
      ap (λ r. verdict (after (decode_loop m) r)) (decode-done a b (ok (some f), rest) e tt)
      ∙ ap (first_frame f) (ih rest (decode-shrinks a rest f e))
      ∙ sym (onward-prepend f (decode_loop n rest) (λ left. decode_all (left ++ b)))

decode_loop-append :
    (n m : ℕ) (a b : List ℕ)
    → length a < n
    → length (a ++ b) < m
    → verdict (decode_loop m (a ++ b))
      ≡ verdict (onward (decode_loop n a) (λ left. decode_all (left ++ b)))
unfolding decode_loop
decode_loop-append zero m a b h k = absurd (omega arith)
decode_loop-append (suc n) zero a b h k = absurd (omega arith)
decode_loop-append (suc n) (suc m) a b h k = after-append m n a b k (decode a) refl (λ rest less.
    decode_loop-append n m rest b (omega arith)
      (omega (arith, length-append {0} a b, length-append {0} rest b)))

decode_all-append :
    (a b : List ℕ)
    → verdict (decode_all (a ++ b))
      ≡ verdict (onward (decode_all a) (λ left. decode_all (left ++ b)))
unfolding decode_all
decode_all-append a b =
    decode_loop-append (suc (length a)) (suc (length (a ++ b))) a b (omega arith) (omega arith)

-- Bytes arrive in pieces: the caller decodes all that it can, and puts the next piece behind what
-- is left in the buffer.
unfoldable pub receive : List ℕ → List (List ℕ) → Drained
unfolding decode_all decode_loop
receive buffer [] = decode_all buffer
receive buffer (piece ∷ pieces) =
    onward (decode_all buffer) (λ left. receive (left ++ piece) pieces)

abbrev pub concat : List (List ℕ) → List ℕ
concat [] = []
concat (piece ∷ pieces) = piece ++ concat pieces

onward-eq :
    (d : Drained) (f g : List ℕ → Drained)
    → ((left : List ℕ) → verdict (f left) ≡ verdict (g left))
    → verdict (onward d f) ≡ verdict (onward d g)
onward-eq d f g h = by_failure d.failed
  where
    prepended :
        (fs : List PulsarFrame)
        → verdict (prepend_all fs (f d.left)) ≡ verdict (prepend_all fs (g d.left))
    prepended [] = h d.left
    prepended (x ∷ fs) = ap (first_frame x) (prepended fs)

    by_failure :
        (o : Option FrameError)
        → verdict (elim o as (λ x. Drained) [ none ↦ prepend_all d.frames (f d.left) | some e ↦ d ])
          ≡ verdict
              (elim o as (λ x. Drained) [ none ↦ prepend_all d.frames (g d.left) | some e ↦ d ])
    by_failure none = prepended d.frames
    by_failure (some e) = refl

-- However the bytes are cut into pieces on their way, a caller that decodes all that it can after
-- each piece gets the frames, and the error if there is one, that it gets from all the bytes at
-- once.
pub receive-decode_all :
    (pieces : List (List ℕ)) (buffer : List ℕ)
    → verdict (receive buffer pieces) ≡ verdict (decode_all (buffer ++ concat pieces))
unfolding receive
receive-decode_all [] buffer = ap (λ b. verdict (decode_all b)) (sym (append-nil buffer))
receive-decode_all (piece ∷ pieces) buffer =
    onward-eq (decode_all buffer) (λ left. receive (left ++ piece) pieces)
      (λ left. decode_all (left ++ (piece ++ concat pieces)))
      (λ left.
        receive-decode_all pieces (left ++ piece)
        ∙ ap (λ b. verdict (decode_all b)) (append_assoc left piece (concat pieces)))
    ∙ sym (decode_all-append buffer (piece ++ concat pieces))
