-- ===== src/Page/Writer/Seqlock.antt =====
-- The seqlock of the page (budget/v1alpha1/page.go) under every interleaving of stores, crashes and
-- restarts: what a reader that sees the same even seq twice has read in between.
use apis.Prelude.{
  ℕ, ◌+◌, ◌*◌, ◌%◌, ◌^◌, ◌≤◌, ◌<◌, ◌≡◌, ◌≢◌, refl, ◌∙◌, sym, Bool, true, false, List, [], ◌∷◌, map,
  range, arith, All, ◌⊎◌, inl, inr, Bool-cases, ◌==◌, if◌then◌else◌, subst,
}
use apis.Page.Snapshot.{PageSnapshot, page_header_size, page_seq_offset}
use apis.Page.Encode.{ok, Buffer, encode_page}
use apis.Page.Writer.{
  Words, Store, apply, PageWriter, scratch, published, due, u64, recognised, shrinks, resumed_seq,
  resume, publish,
}
use apis.Page.Writer.Header.{store_list, resume_lem, resumed_writer}
use apis.Page.Writer.Rollback.{store_list-recognised, store_list-takes_over}
use apis.Page.Writer.System.{
  seq_of, System, Step, Reach, IsPage, body_count, body_of, page_words, start,
}
use apis.Page.Writer.Good.{Good, Calm, Calm-refl, Calm-trans, Trace, Trace-Good, header-Trace}
use apis.Page.Writer.Publishing.{Ready, stores_of, publish-Publication, publish-Trace}

-- The invariant of the system.
abbrev Inv : System → Type 0
Inv s = Trace (Ready s.writer) s.words s.pending

-- Resume's seq is even, and not below the page's.
resumed_seq_bounds :
    (words : Words) → Good words → (resumed_seq words % 2 ≡ 0) × (seq_of words ≤ resumed_seq words)
unfolding resumed_seq
resumed_seq_bounds words g = elim (Bool-cases (recognised words)) [
  | inl known ↦ rw known (rounded (Bool-cases (words page_seq_offset % 2 == 1)))
  | inr strange ↦ rw strange (omega arith, zero_seq g.known strange)
]
  where
    zero_seq :
        (recognised words ≡ true) ⊎ (seq_of words ≡ 0) → recognised words ≡ false → seq_of words ≤ 0
    zero_seq (inl known) strange = cc
    zero_seq (inr z) strange = omega arith

    rounded :
        ((words page_seq_offset % 2 == 1) ≡ true) ⊎ ((words page_seq_offset % 2 == 1) ≡ false)
        → ((if words page_seq_offset % 2 == 1
                then u64 (words page_seq_offset + 1)
                else words page_seq_offset)
              % 2
            ≡ 0)
          × (seq_of words ≤ (
              if words page_seq_offset % 2 == 1
              then u64 (words page_seq_offset + 1)
              else words page_seq_offset))
    rounded c = let f = g.fits in ground arith

store_list-low : (b : Bool) → All (λ (st : Store). st.0 < page_seq_offset) (store_list b)
store_list-low true = (
  omega arith,
  (
    omega arith,
    (omega arith, (omega arith, (omega arith, (omega arith, (omega arith, (omega arith, tt)))))),
  ),
)
store_list-low false = (
  omega arith,
  (
    omega arith,
    (omega arith, (omega arith, (omega arith, (omega arith, (omega arith, (omega arith, tt)))))),
  ),
)

store_list-seq : (b : Bool) (words : Words) → seq_of (apply (store_list b) words) ≡ seq_of words
unfolding apply
store_list-seq true words = refl
store_list-seq false words = refl

publishing-Trace :
    (words : Words) (w : PageWriter) (s : PageSnapshot) {stores : List Store} {w' : PageWriter}
    → Good words × Ready w words
    → w.seq + 3 < 2 ^ 64
    → publish w s ≡ ok (stores, w')
    → Trace (Ready w') words stores
unfolding Ready published
publishing-Trace words w s {w'} (g, ready) bound e =
    let p = publish-Publication w s e in
    let (even, le, known) = ready p.resumed in
    subst (λ done. Trace (Ready w') words done) (sym p.stores_are)
      (subst (λ v. Trace (Ready v) words (stores_of w.seq (published w s).epoch (due w s) p.page))
        (sym p.writer_is)
        (publish-Trace (Ready (published w s)) w.seq (published w s).epoch (due w s) s p.page words
          g known even le bound p.encoded
          (λ words' same known' _. (omega arith, omega arith, known'))))

resuming-Trace :
    (words : Words) (w : PageWriter) {stores : List Store} {w' : PageWriter}
    → Good words
    → resume words w ≡ ok (stores, w')
    → Trace (Ready w') words stores
unfolding Ready
resuming-Trace words w {stores} {w'} g e =
    let b = shrinks words in
    let same : store_list b ≡ stores = cc (resume_lem words w) in
    let writer : resumed_writer words w ≡ w' = cc (resume_lem words w) in
    let (even, le) = resumed_seq_bounds words g in
    let kept = store_list-seq b words in
    rw (← same, ← writer)
      (header-Trace (Ready (resumed_writer words w)) (store_list b) words (store_list-low b)
        (λ n. elim g.known [
          | inl known ↦ inl (store_list-recognised words b n known)
          | inr z ↦ inr z
        ])
        (λ _. (even, omega arith, store_list-takes_over words b)) g)

-- Every step keeps the invariant.
Step-Inv : {s t : System} → Inv s → Step s t → Inv t
unfolding Ready
Step-Inv {s} inv (Step.publishing snapshot idle bound e) =
    publishing-Trace s.words s.writer snapshot (subst (Trace (Ready s.writer) s.words) idle inv)
      bound e
Step-Inv {s} inv (Step.resuming idle e) =
    resuming-Trace s.words s.writer (Trace-Good (Ready s.writer) s.words s.pending inv) e
Step-Inv {s} inv (Step.writing next) = (subst (Trace (Ready s.writer) s.words) next inv).2
Step-Inv {s} inv Step.crashing =
    (Trace-Good (Ready s.writer) s.words s.pending inv, λ h. absurd (cc))

Step-Calm : {s t : System} → Inv s → Step s t → Calm s.words t.words
Step-Calm {s} inv (Step.publishing snapshot idle bound e) = Calm-refl s.words
Step-Calm {s} inv (Step.resuming idle e) = Calm-refl s.words
Step-Calm {s} inv (Step.writing next) = (subst (Trace (Ready s.writer) s.words) next inv).1
Step-Calm {s} inv Step.crashing = Calm-refl s.words

Reach-Inv : {s t : System} → Inv s → Reach s t → Inv t
Reach-Inv inv Reach.here = inv
Reach-Inv inv (Reach.later r st) = Step-Inv (Reach-Inv inv r) st

Reach-Calm : {s t : System} → Inv s → Reach s t → Calm s.words t.words
Reach-Calm {s} inv Reach.here = Calm-refl s.words
Reach-Calm {s} {t = u} inv (Reach.later {t} r st) =
    Calm-trans s.words t.words u.words (Reach-Calm inv r) (Step-Calm (Reach-Inv inv r) st)

start-Inv : Inv start
unfolding Ready
start-Inv = (
  record { fits = omega arith; known = inr refl; settled = λ even nonzero. absurd (nonzero refl) },
  λ h. absurd (cc),
)

-- Rows that all equal one row have that row as their diagonal.
map-diagonal :
    (f : ℕ → ℕ → ℕ) (g : ℕ → ℕ) (xs : List ℕ)
    → ((k : ℕ) → map (f k) xs ≡ map g xs)
    → map (λ k. f k k) xs ≡ map g xs
map-diagonal f g [] h = refl
map-diagonal f g (x ∷ xs) h =
    let row : map (f x) (x ∷ xs) ≡ map g (x ∷ xs) = h x in
    let head : f x x ≡ g x = cc in
    cc (head, map-diagonal f g xs (λ k. let here : map (f k) (x ∷ xs) ≡ map g (x ∷ xs) = h k in cc))

-- From a page of zeros, whatever publications, crashes and restarts there were, while seq stays short
-- of its wrap: an even seq other than 0 stands over the body of a page that EncodePage made.
pub seq-IsPage :
    {a : System} → Reach start a → seq_of a.words % 2 ≡ 0 → seq_of a.words ≢ 0 → IsPage a.words
seq-IsPage {a} r even nonzero =
    (Trace-Good (Ready a.writer) a.words a.pending (Reach-Inv start-Inv r)).settled even nonzero

-- After any run from a page of zeros in which seq stays short of its wrap, let a reader find an even
-- seq other than 0 at moment a, and the same seq at a later moment c. If it reads each word of the body
-- at some moment between them, each at a moment of its own, then its copy is the body of one page
-- that EncodePage made, whatever the writer stored and however often it died meanwhile.
pub reader_copy :
    {a c : System} (moment : ℕ → System)
    → Reach start a
    → seq_of a.words % 2 ≡ 0
    → seq_of a.words ≢ 0
    → seq_of a.words ≡ seq_of c.words
    → ((k : ℕ) → Reach a (moment k))
    → ((k : ℕ) → Reach (moment k) c)
    → (s : PageSnapshot) × (page : Buffer) × (encode_page scratch s ≡ ok page)
      × (map (λ k. (moment k).words (page_header_size + 8 * k)) (range body_count)
          ≡ page_words page.at)
unfolding body_of
reader_copy {a} {c} moment r even nonzero same before after =
    let p = seq-IsPage r even nonzero in
    (
      p.snapshot,
      p.page,
      p.encoded,
      map-diagonal (λ k j. (moment k).words (page_header_size + 8 * j))
            (λ j. a.words (page_header_size + 8 * j)) (range body_count) agree
          ∙ p.body,
    )
  where
    agree : (k : ℕ) → body_of (moment k).words ≡ body_of a.words
    agree k =
        let inv = Reach-Inv start-Inv r in
        let up = Reach-Calm inv (before k) in
        let on = Reach-Calm (Reach-Inv inv (before k)) (after k) in
        let low = up.rises in
        let high = on.rises in
        let meanwhile : seq_of a.words ≡ seq_of (moment k).words = omega arith in
        up.still even meanwhile
