-- ===== src/Topside/Net/Reading.antt =====
-- How the loop of `home_connection` takes frames off a stream that arrives in pieces.
use aqualung.Common.{
  some_inj, ℕ, zero, suc, ◌≤◌, ◌≡◌, refl, ap, ◌∙◌, sym, ◌⊎◌, inl, inr, some, List, [], ◌∷◌, ◌++◌,
  ltb, ok, err, arith, Bool-cases, Option-cases,
}
use aqualung.Wire.Frame.{
  WireError, io, max_frame, read_exact, read_frame, read_frame-write_frame, to_be_bytes,
  from_be_bytes, length,
}
use aqualung.Topside.Net.Home.{Poll, pending, done, poll_body, poll_frame}

read_exact-more :
    (n : ℕ) (xs more : List ℕ) (p : List ℕ × List ℕ)
    → read_exact n xs ≡ some p
    → read_exact n (xs ++ more) ≡ some (p.0, p.1 ++ more)
unfolding read_exact
read_exact-more zero xs more p h =
    ap (λ (p : List ℕ × List ℕ). some (p.0, p.1 ++ more)) (some_inj h)
read_exact-more (suc n) [] more p h = cc
read_exact-more (suc n) (x ∷ xs) more p h = elim (Option-cases (read_exact n xs)) [
  | inl missing ↦ ground arith
  | inr (q, e) ↦
      rw (read_exact-more n xs more q e)
        (ap (λ (p : List ℕ × List ℕ). some (p.0, p.1 ++ more)) (some_inj (sym (rw e refl) ∙ h)))
]

done_ok_inj : {p q : List ℕ × List ℕ} → done (ok p) ≡ done (ok q) → p ≡ q
done_ok_inj h = cc

poll_body-more_ok :
    (len : ℕ) (xs more : List ℕ) (p : List ℕ × List ℕ)
    → poll_body len xs ≡ done (ok p)
    → poll_body len (xs ++ more) ≡ done (ok (p.0, p.1 ++ more))
unfolding poll_body
poll_body-more_ok len xs more p h = elim (Bool-cases (ltb max_frame len)) [
  | inl long ↦ ground arith
  | inr short ↦ elim (Option-cases (read_exact len xs)) [
    | inl missing ↦ ground arith
    | inr (q, e) ↦
        rw (short, read_exact-more len xs more q e)
          (ap (λ (p : List ℕ × List ℕ). done (ok (p.0, p.1 ++ more)))
            (done_ok_inj (sym (rw (short, e) refl) ∙ h)))
  ]
]

poll_body-more_err :
    (len : ℕ) (xs more : List ℕ) (e : WireError)
    → poll_body len xs ≡ done (err e)
    → poll_body len (xs ++ more) ≡ done (err e)
unfolding poll_body
poll_body-more_err len xs more e h = ground arith

-- A poll that is done is done alike when more has arrived.
poll_frame-more_ok :
    (xs more : List ℕ) (p : List ℕ × List ℕ)
    → poll_frame xs ≡ done (ok p)
    → poll_frame (xs ++ more) ≡ done (ok (p.0, p.1 ++ more))
unfolding poll_frame
poll_frame-more_ok xs more p h = elim (Option-cases (read_exact 4 xs)) [
  | inl missing ↦ ground arith
  | inr (q, e) ↦
      rw (poll_frame, read_exact-more 4 xs more q e)
        (poll_body-more_ok (from_be_bytes q.0) q.1 more p (sym (rw (poll_frame, e) refl) ∙ h))
]

poll_frame-more_err :
    (xs more : List ℕ) (e : WireError)
    → poll_frame xs ≡ done (err e)
    → poll_frame (xs ++ more) ≡ done (err e)
unfolding poll_frame
poll_frame-more_err xs more e h = elim (Option-cases (read_exact 4 xs)) [
  | inl missing ↦ ground arith
  | inr (q, r) ↦
      rw (poll_frame, read_exact-more 4 xs more q r)
        (poll_body-more_err (from_be_bytes q.0) q.1 more e (sym (rw (poll_frame, r) refl) ∙ h))
]

-- At the end of the input, `read_frame` is the poll, with what it waits for missing.
pub read_frame-poll_frame :
    (input : List ℕ)
    → read_frame input ≡ (elim (poll_frame input) [ pending ↦ err io | done r ↦ r ])
unfolding read_frame poll_frame poll_body
read_frame-poll_frame input = ground arith

-- What `write_frame` writes for a payload of at most 64 MB.
abbrev pub frame : List ℕ → List ℕ
frame json = to_be_bytes (length json) ++ json

pub poll_frame-frame :
    (json rest : List ℕ)
    → length json ≤ max_frame
    → poll_frame (frame json ++ rest) ≡ done (ok (json, rest))
poll_frame-frame json rest fits = go (poll_frame (frame json ++ rest)) refl
  where
    go :
        (r : Poll)
        → poll_frame (frame json ++ rest) ≡ r
        → poll_frame (frame json ++ rest) ≡ done (ok (json, rest))
    go pending e =
        ground (arith, read_frame-poll_frame (frame json ++ rest), read_frame-write_frame json rest)
    go (done r) e =
        ground (arith, read_frame-poll_frame (frame json ++ rest), read_frame-write_frame json rest)

-- A frame of which a part is there is waited for, or it is there whole.
pub poll_frame_part :
    (taken more json rest : List ℕ)
    → taken ++ more ≡ frame json ++ rest
    → length json ≤ max_frame
    → (poll_frame taken ≡ pending)
      ⊎ ((tail : List ℕ) × (poll_frame taken ≡ done (ok (json, tail))) × (tail ++ more ≡ rest))
poll_frame_part taken more json rest e fits = go (poll_frame taken) refl
  where
    whole : poll_frame (taken ++ more) ≡ done (ok (json, rest))
    whole = ap poll_frame e ∙ poll_frame-frame json rest fits

    go :
        (r : Poll)
        → poll_frame taken ≡ r
        → (poll_frame taken ≡ pending)
          ⊎ ((tail : List ℕ) × (poll_frame taken ≡ done (ok (json, tail))) × (tail ++ more ≡ rest))
    go pending p = inl p
    go (done (ok q)) p =
        let same : (q.0, q.1 ++ more) ≡ (json, rest) =
          done_ok_inj (sym (poll_frame-more_ok taken more q p) ∙ whole) in
        let payload : q.0 ≡ json = ap (λ (p : List ℕ × List ℕ). p.0) same in
        let behind : q.1 ++ more ≡ rest = ap (λ (p : List ℕ × List ℕ). p.1) same in
        inr (q.1, p ∙ ap (λ x. done (ok (x, q.1))) payload, behind)
    go (done (err x)) p = ground (arith, poll_frame-more_err taken more x p, whole)
