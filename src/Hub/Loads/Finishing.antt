-- ===== src/Hub/Loads/Finishing.antt =====
-- The loads of a new home connection come to their end.
use aqualung.Common.{
  ℕ, ◌+◌, ◌<◌, ◌^◌, String, ◌≡◌, ◌≢◌, refl, inl, inr, ◌∙◌, sym, ap, true, none, some, List, [], ◌∷◌,
  nat_eq, string_eq, arith, ==_iff, ==_refl, Option-cases,
}
use aqualung.Common.HashMap.{HashMap, get, remove, get-remove}
use aqualung.Common.HashSet.{contains, btree_collect}
use aqualung.Hub.Loads.{PendingLoads, LoadProgress, more, done, ignore, loaded, start}
use aqualung.Hub.Loads.Starting.{count, start-Matched}
use aqualung.Hub.Loads.Progress.{Matched, loaded-Matched}

-- The loads under a sequence of answers, by the ids of their requests, as `after_load_result` goes
-- through them.
unfoldable pub fed : LoadProgress → List ℕ → LoadProgress
unfolding loaded
fed done ids = done
fed (more p) [] = more p
fed (more p) (id ∷ ids) = fed (loaded p id) ids
fed (ignore p) [] = more p
fed (ignore p) (id ∷ ids) = fed (loaded p id) ids

-- Every open request is answered.
abbrev pub Answered : PendingLoads → List ℕ → Type 0
Answered p ids = (id : ℕ) (s : String) → get id p.load_ids ≡ some s → contains id ids ≡ true

some_request : (m : HashMap ℕ String) → m ≢ [] → (id : ℕ) × (s : String) × (get id m ≡ some s)
unfolding get
some_request [] there = elim (there refl) [ ]
some_request ((id, s) ∷ m) there = (id, s, rw (==_refl id) refl)

Answered-nil : (p : PendingLoads) → p.load_ids ≢ [] → ¬ Answered p []
unfolding contains
Answered-nil p open_ answered =
    let (id, s, e) = some_request p.load_ids open_ in cc (answered id s e)

-- An answer that no request waits for leaves the others answered.
Answered-ignored :
    (p : PendingLoads) (id : ℕ) (ids : List ℕ)
    → get id p.load_ids ≡ none
    → Answered p (id ∷ ids)
    → Answered p ids
unfolding contains
Answered-ignored p id ids gone answered =
    λ j s e. ground (arith, answered j s, ==_iff id j, gone, e)

Answered-more :
    (p q : PendingLoads) (id : ℕ) (ids : List ℕ)
    → q.load_ids ≡ remove id p.load_ids
    → Answered p (id ∷ ids)
    → Answered q ids
unfolding contains
Answered-more p q id ids left answered = λ j s e.
    (let there : get j (remove id p.load_ids) ≡ some s = rw (sym left) e in
      ground (arith, answered j s, ==_iff id j, get-remove id j p.load_ids, there))

loaded-ignored : (p : PendingLoads) (id : ℕ) → get id p.load_ids ≡ none → loaded p id ≡ ignore p
unfolding loaded
loaded-ignored p id gone = rw (loaded, gone) refl

fed-ignore : (p : PendingLoads) (ids : List ℕ) → fed (ignore p) ids ≡ fed (more p) ids
unfolding fed
fed-ignore p [] = refl
fed-ignore p (id ∷ ids) = refl

fed-cons :
    (p : PendingLoads) (id : ℕ) (ids : List ℕ) → fed (more p) (id ∷ ids) ≡ fed (loaded p id) ids
unfolding fed
fed-cons p id ids = refl

done_stays : (ids : List ℕ) → fed done ids ≡ done
unfolding fed
done_stays ids = refl

fed-done :
    (p : PendingLoads) (ids : List ℕ)
    → Matched p
    → p.load_ids ≢ []
    → Answered p ids
    → fed (more p) ids ≡ done
fed-done p [] m open_ answered = elim (Answered-nil p open_ answered) [ ]
fed-done p (id ∷ ids) m open_ answered = elim (Option-cases (get id p.load_ids)) [
  | inl gone ↦
      fed-cons p id ids
      ∙ ap (λ r. fed r ids) (loaded-ignored p id gone)
      ∙ fed-ignore p ids
      ∙ fed-done p ids m open_ (Answered-ignored p id ids gone answered)
  | inr (s, there) ↦ elim (loaded-Matched p id s m there) [
    | inl (all, none_left) ↦ fed-cons p id ids ∙ ap (λ r. fed r ids) all ∙ done_stays ids
    | inr (q, e, mq, left, open_q) ↦
        fed-cons p id ids
        ∙ ap (λ r. fed r ids) e
        ∙ fed-done q ids mq (λ empty. open_q (sym left ∙ empty))
            (Answered-more p q id ids left answered)
  ]
]

-- A list of texts that contains one is not empty, and so is a table with a request for it.
Matched-open :
    (p : PendingLoads) (s : String) → Matched p → contains s p.remaining ≡ true → p.load_ids ≢ []
unfolding get
Matched-open p s m there empty =
    let (id, e) = m.has_request s there in
    let gone : none ≡ some s = ap (λ (ids : HashMap ℕ String). get id ids) (sym empty) ∙ e in cc

-- Where there is something to load and the ids do not wrap: when every open request has been
-- answered, in whatever order and with whatever other answers among them, the loads with which
-- the connection started are done.
pub start-fed :
    (watched : List String) (next_req last : ℕ) (p : PendingLoads) (s : String) (ids : List ℕ)
    → start watched next_req ≡ (some p, last)
    → next_req + count (btree_collect watched) < 2 ^ 64
    → contains s watched ≡ true
    → Answered p ids
    → fed (more p) ids ≡ done
start-fed watched next_req last p s ids h room there answered =
    let (m, same) = start-Matched watched next_req last p s h room in
    fed-done p ids m (Matched-open p s m (same ∙ there)) answered
