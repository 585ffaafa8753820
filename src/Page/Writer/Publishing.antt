-- ===== src/Page/Writer/Publishing.antt =====
-- The stores of PageWriter.Publish (budget/v1alpha1/page.go), one by one.
use apis.Prelude.{
  ℕ, ◌+◌, ◌%◌, ◌^◌, ◌≤◌, ◌<◌, ◌≡◌, ◌≢◌, refl, ◌∙◌, Bool, true, false, List, [], ◌∷◌, ◌++◌, arith,
  All, inl, inr, Bool-cases,
}
use apis.Page.Snapshot.{PageSnapshot, page_header_size, page_seq_offset, page_notify_epoch_offset}
use apis.Page.Encode.{ok, err, page_writer_not_resumed, Buffer, encode_page, >>=-eq-ok, Result}
use apis.Page.Writer.{
  Words, Store, store, apply, PageWriter, scratch, u64, body_stores, epoch_store, due, published,
  publish, recognised,
}
use apis.Page.Writer.System.{seq_of, IsPage, body_of}
use apis.Page.Writer.Stores.{
  store-other, store-here, apply-other, body_stores-from, body_of-body_stores, body_of-agree,
}
use apis.Page.Writer.Good.{Good, Trace, recognised-above, Calm-outside, Good-outside, body-Trace}

-- What a writer that has resumed knows of the page once its stores are done.
unfoldable pub Ready : PageWriter → Words → Type 0
Ready w words =
    w.resumed ≡ true → (w.seq % 2 ≡ 0) × (seq_of words ≤ w.seq) × (recognised words ≡ true)

-- The stores of a Publish over seq, where notify says whether notifyEpoch is stored.
abbrev pub stores_of : ℕ → ℕ → Bool → Buffer → List Store
stores_of seq epoch notify page =
    (page_seq_offset, u64 (seq + 1)) ∷ body_stores page.at
    ++ ((page_seq_offset, u64 (seq + 2)) ∷ epoch_store notify epoch)

-- The parts of a Publish that succeeds.
pub record Publication (w : PageWriter) (s : PageSnapshot) (stores : List Store) (w' : PageWriter)
    : Type 0 where
  pub resumed : w.resumed ≡ true
  pub page : Buffer
  pub encoded : encode_page scratch s ≡ ok page
  pub stores_are : stores ≡ stores_of w.seq (published w s).epoch (due w s) page
  pub writer_is : w' ≡ published w s

pub publish-Publication :
    (w : PageWriter) (s : PageSnapshot) {stores : List Store} {w' : PageWriter}
    → publish w s ≡ ok (stores, w')
    → Publication w s stores w'
unfolding publish published
publish-Publication w s {stores} {w'} e = elim (Bool-cases w.resumed) [
  | inr closed ↦
      let h : ◌≡◌ {A = Result (List Store × PageWriter)} (err page_writer_not_resumed)
          (ok (stores, w')) =
        rw (closed, publish) at e in
      absurd (cc)
  | inl ready ↦
      let (page, encoded, e') = >>=-eq-ok (encode_page scratch s) _ (rw (ready, publish) at e) in
      record { resumed = ready; page = page; encoded = encoded; stores_are = cc; writer_is = cc }
]

not_seq :
    (stores : List Store)
    → All (λ (st : Store). page_header_size ≤ st.0) stores
    → All (λ (st : Store). page_seq_offset ≢ st.0) stores
not_seq [] h = tt
not_seq (st ∷ stores) h =
    (λ e. let above : page_header_size ≤ st.0 = h.0 in omega arith, not_seq stores h.1)

module _ (Finish : Words → Type 0) where
  -- The store of notifyEpoch, if one is due.
  epoch-Trace :
      (notify : Bool) (epoch : ℕ) (words : Words)
      → Good words
      → recognised words ≡ true
      → ((words' : Words) → seq_of words' ≡ seq_of words → recognised words' ≡ true → Finish words')
      → Trace Finish words (epoch_store notify epoch)
  epoch-Trace false epoch words g known finish = (g, finish words refl known)
  epoch-Trace true epoch words g known finish =
      let st : Store = (page_notify_epoch_offset, epoch) in
      let known' : recognised (store words st) ≡ true =
        recognised-above words st (omega arith) ∙ known in
      (
        g,
        Calm-outside words st (omega arith) (λ e. omega arith),
        (
          Good-outside words st (omega arith) (λ e. omega arith) (inl known') g,
          finish (store words st) (store-other words st page_seq_offset (λ e. omega arith)) known',
        ),
      )

  -- The store of the even seq over a body that is the page's.
  close-Trace :
      (notify : Bool) (epoch v : ℕ) (words : Words)
      → Good words
      → seq_of words % 2 ≡ 1
      → seq_of words ≤ v
      → v + 1 < 2 ^ 64
      → IsPage words
      → ((words' : Words) → seq_of words' ≡ v → recognised words' ≡ true → Finish words')
      → Trace Finish words ((page_seq_offset, v) ∷ epoch_store notify epoch)
  close-Trace notify epoch v words g odd le fits page finish =
      let st : Store = (page_seq_offset, v) in
      let here : seq_of (store words st) ≡ v = store-here words page_seq_offset v in
      let known : recognised words ≡ true = elim g.known [
        | inl r ↦ r
        | inr z ↦ absurd (omega arith)
      ] in
      let known' : recognised (store words st) ≡ true =
        recognised-above words st (omega arith) ∙ known in
      let body : body_of (store words st) ≡ body_of words =
        body_of-agree (store words st) words
          (λ i above. store-other words st i (λ e. omega arith)) in
      let next : Good (store words st) = record {
        fits = omega arith;
        known = inl known';
        settled = λ _ _. record {
          snapshot = page.snapshot;
          page = page.page;
          encoded = page.encoded;
          body = body ∙ page.body;
        };
      } in
      (
        g,
        record { rises = omega arith; still = λ now _. absurd (omega arith) },
        epoch-Trace notify epoch (store words st) next known'
            (λ words' same. finish words' (same ∙ here)),
      )

  -- All the stores of a Publish.
  pub publish-Trace :
      (seq epoch : ℕ) (notify : Bool) (s : PageSnapshot) (page : Buffer) (words : Words)
      → Good words
      → recognised words ≡ true
      → seq % 2 ≡ 0
      → seq_of words ≤ seq
      → seq + 3 < 2 ^ 64
      → encode_page scratch s ≡ ok page
      → ((words' : Words)
          → seq_of words' ≡ u64 (seq + 2)
          → recognised words' ≡ true
          → Finish words')
      → Trace Finish words (stores_of seq epoch notify page)
  publish-Trace seq epoch notify s page words g known even le bound encoded finish =
      let st : Store = (page_seq_offset, u64 (seq + 1)) in
      let opened = store words st in
      let here : seq_of opened ≡ u64 (seq + 1) = store-here words page_seq_offset (u64 (seq + 1)) in
      let next : Good opened = record {
        fits = omega arith;
        known = inl (recognised-above words st (omega arith) ∙ known);
        settled = λ now _. absurd (omega arith);
      } in
      let filled = apply (body_stores page.at) opened in
      let kept : seq_of filled ≡ seq_of opened =
        apply-other (body_stores page.at) opened page_seq_offset
          (not_seq (body_stores page.at) (body_stores-from page.at)) in
      (
        g,
        record { rises = omega arith; still = λ e1 e2. absurd (omega arith) },
        body-Trace Finish (body_stores page.at)
            ((page_seq_offset, u64 (seq + 2)) ∷ epoch_store notify epoch) opened
            (body_stores-from page.at) (omega arith) next
            (λ good.
              close-Trace notify epoch (u64 (seq + 2)) filled good (omega arith) (omega arith)
                (omega arith)
                (record {
                  snapshot = s;
                  page = page;
                  encoded = encoded;
                  body = body_of-body_stores page.at opened;
                })
                finish),
      )
