-- ===== src/Page/Writer/Effects.antt =====
-- What a whole Publish (budget/v1alpha1/page.go) leaves in the page and in the writer, and when it is
-- refused.
use apis.Prelude.{
  ℕ, ◌+◌, ◌≤◌, ◌<◌, ◌≡◌, ◌≢◌, ◌⊎◌, inl, inr, refl, ◌∙◌, ap, sym, Bool, true, false, not, some, List,
  [], ◌∷◌, arith, All, if◌then◌else◌, Bool-cases,
}
use apis.Page.Snapshot.{PageSnapshot, page_header_size, page_seq_offset, page_notify_epoch_offset}
use apis.Page.Encode.{
  ok, err, PageError, page_writer_not_resumed, Buffer, Result, encode_page, ◌>>=◌,
}
use apis.Page.Notify.{page_notify_due, notify_key_of, key_eq_sym}
use apis.Page.Writer.{
  Words, Store, store, apply, PageWriter, scratch, u64, body_stores, epoch_store, due, published,
  publish,
}
use apis.Page.Writer.System.{body_of, page_words}
use apis.Page.Writer.Stores.{
  store-other, store-here, apply-append, apply-other, body_stores-from, body_of-body_stores,
  body_of-agree,
}
use apis.Page.Writer.Publishing.{stores_of, publish-Publication}

-- Where the stores of the body do not reach.
apply-body_stores-below :
    (page : Buffer) (words : Words) (i : ℕ)
    → i < page_header_size
    → apply (body_stores page.at) words i ≡ words i
apply-body_stores-below page words i low =
    apply-other (body_stores page.at) words i
      (below (body_stores page.at) (body_stores-from page.at))
  where
    below :
        (stores : List Store)
        → All (λ (st : Store). page_header_size ≤ st.0) stores
        → All (λ (st : Store). i ≢ st.0) stores
    below [] h = tt
    below (st ∷ stores) h =
        (λ e. let above : page_header_size ≤ st.0 = h.0 in omega arith, below stores h.1)

apply-epoch_store :
    (notify : Bool) (epoch : ℕ) (words : Words) (i : ℕ)
    → i ≢ page_notify_epoch_offset
    → apply (epoch_store notify epoch) words i ≡ words i
apply-epoch_store notify epoch words i h =
    apply-other (epoch_store notify epoch) words i (only notify)
  where
    only : (notify : Bool) → All (λ (st : Store). i ≢ st.0) (epoch_store notify epoch)
    only true = (h, tt)
    only false = tt

epoch_after :
    (notify : Bool) (epoch : ℕ) (words : Words)
    → apply (epoch_store notify epoch) words page_notify_epoch_offset
      ≡ (if notify then epoch else words page_notify_epoch_offset)
unfolding apply
epoch_after true epoch words = store-here words page_notify_epoch_offset epoch
epoch_after false epoch words = refl

module _ (seq epoch : ℕ) (notify : Bool) (page : Buffer) (words : Words) where
  odd_words : Words
  odd_words = store words (page_seq_offset, u64 (seq + 1))

  even_words : Words
  even_words = store (apply (body_stores page.at) odd_words) (page_seq_offset, u64 (seq + 2))

  apply-stores_of :
      apply (stores_of seq epoch notify page) words ≡ apply (epoch_store notify epoch) even_words
  unfolding apply odd_words even_words
  apply-stores_of =
      apply-append (body_stores page.at)
        ((page_seq_offset, u64 (seq + 2)) ∷ epoch_store notify epoch) odd_words

  below_body : (i : ℕ) → i < page_header_size → i ≢ page_seq_offset → even_words i ≡ words i
  unfolding odd_words even_words
  below_body i low other =
      store-other (apply (body_stores page.at) odd_words) (page_seq_offset, u64 (seq + 2)) i other
      ∙ (apply-body_stores-below page odd_words i low
          ∙ store-other words (page_seq_offset, u64 (seq + 1)) i other)

  even_seq : even_words page_seq_offset ≡ u64 (seq + 2)
  unfolding even_words
  even_seq = store-here (apply (body_stores page.at) odd_words) page_seq_offset (u64 (seq + 2))

  even_body : body_of even_words ≡ page_words page.at
  unfolding even_words
  even_body =
      body_of-agree even_words (apply (body_stores page.at) odd_words) (λ i le.
        store-other (apply (body_stores page.at) odd_words) (page_seq_offset, u64 (seq + 2)) i
          (λ e. omega arith))
      ∙ body_of-body_stores page.at odd_words

  publish_words :
      {stores : List Store}
      → stores ≡ stores_of seq epoch notify page
      → apply stores words ≡ apply (epoch_store notify epoch) even_words
  publish_words e = ap (λ done. apply done words) e ∙ apply-stores_of

-- After all the stores of a Publish the body is that of the snapshot's page, seq is the writer's, and
-- notifyEpoch is the writer's if a bump was due and else as before.
pub publish-effect :
    (words : Words) (w : PageWriter) (s : PageSnapshot) {stores : List Store} {w' : PageWriter}
    → publish w s ≡ ok (stores, w')
    → (page : Buffer) × (encode_page scratch s ≡ ok page)
      × (body_of (apply stores words) ≡ page_words page.at)
      × (apply stores words page_seq_offset ≡ w'.seq)
      × (apply stores words page_notify_epoch_offset
          ≡ (if due w s then w'.epoch else words page_notify_epoch_offset))
unfolding published
publish-effect words w s {stores} {w'} e =
    let p = publish-Publication w s e in
    let page = p.page in
    let notify = due w s in
    let epoch = (published w s).epoch in
    let even = even_words w.seq epoch notify page words in
    let same : apply stores words ≡ apply (epoch_store notify epoch) even =
      publish_words w.seq epoch notify page words p.stores_are in
    let at = λ (i : ℕ). ap (λ (f : Words). f i) same in
    (
      page,
      p.encoded,
      ap body_of same
          ∙ (body_of-agree (apply (epoch_store notify epoch) even) even
                (λ i le. apply-epoch_store notify epoch even i (λ e. omega arith))
              ∙ even_body w.seq epoch notify page words),
      at page_seq_offset
          ∙ (apply-epoch_store notify epoch even page_seq_offset (λ e. omega arith)
              ∙ (even_seq w.seq epoch notify page words
                  ∙ ap (λ (v : PageWriter). v.seq) (sym p.writer_is))),
      at page_notify_epoch_offset
          ∙ (epoch_after notify epoch even
              ∙ (ap (λ x. if notify then epoch else x)
                    (below_body w.seq epoch notify page words page_notify_epoch_offset (omega arith)
                      (λ e. omega arith))
                  ∙ ap
                      (λ (v : PageWriter).
                        if notify then v.epoch else words page_notify_epoch_offset)
                      (sym p.writer_is))),
    )

-- Publish leaves every word under the body but seq and notifyEpoch as it was: the header line too.
pub publish-other :
    (words : Words) (w : PageWriter) (s : PageSnapshot) (i : ℕ) {stores : List Store}
    {w' : PageWriter}
    → publish w s ≡ ok (stores, w')
    → i < page_header_size
    → i ≢ page_seq_offset
    → i ≢ page_notify_epoch_offset
    → apply stores words i ≡ words i
publish-other words w s i {stores} e low noseq noepoch =
    let p = publish-Publication w s e in
    let notify = due w s in
    let epoch = (published w s).epoch in
    let even = even_words w.seq epoch notify p.page words in
    let same : apply stores words ≡ apply (epoch_store notify epoch) even =
      publish_words w.seq epoch notify p.page words p.stores_are in
    ap (λ (f : Words). f i) same
    ∙ (apply-epoch_store notify epoch even i noepoch
        ∙ below_body w.seq epoch notify p.page words i low noseq)

due-published :
    (w : PageWriter) (first second : PageSnapshot)
    → due (published w first) second ≡ page_notify_due (some first) second
unfolding due published page_notify_due
due-published w first second = ap not (key_eq_sym (notify_key_of second) (notify_key_of first))

-- Of two publications in a row the second bumps notifyEpoch exactly when PageNotifyDue of the two
-- snapshots, and seq goes up by 2, both modulo 2 ^ 64.
pub publish-epoch :
    (w : PageWriter) (first second : PageSnapshot) {stores1 stores2 : List Store}
    {w1 w2 : PageWriter}
    → publish w first ≡ ok (stores1, w1)
    → publish w1 second ≡ ok (stores2, w2)
    → (w2.epoch ≡ (if page_notify_due (some first) second then u64 (w1.epoch + 1) else w1.epoch))
      × (w2.seq ≡ u64 (w1.seq + 2))
unfolding published
publish-epoch w first second {w1 = w1} {w2 = w2} e1 e2 =
    let p = publish-Publication w first e1 in
    let q = publish-Publication w1 second e2 in
    (
      ap (λ (v : PageWriter). v.epoch) q.writer_is
          ∙ ap (λ b. if b then u64 (w1.epoch + 1) else w1.epoch)
              (ap (λ v. due v second) p.writer_is ∙ due-published w first second),
      ap (λ (v : PageWriter). v.seq) q.writer_is,
    )

-- Publish is refused exactly without a Resume or when EncodePage refuses the snapshot, and then does
-- no store.
pub publish-err :
    (w : PageWriter) (s : PageSnapshot) (e : PageError)
    → publish w s ≡ err e
    → ((w.resumed ≡ false) × (e ≡ page_writer_not_resumed))
      ⊎ ((w.resumed ≡ true) × (encode_page scratch s ≡ err e))
unfolding publish
publish-err w s e h = elim (Bool-cases w.resumed) [
  | inr closed ↦
      let h' : ◌≡◌ {A = Result (List Store × PageWriter)} (err page_writer_not_resumed) (err e) =
        rw (closed, publish) at h in
      inl (closed, cc)
  | inl ready ↦ inr (ready, encoded _ (encode_page scratch s) refl (rw (ready, publish) at h))
]
  where
    encoded :
        (f : Buffer → List Store × PageWriter) (r : Result Buffer)
        → encode_page scratch s ≡ r
        → (r >>= λ page. ok (f page)) ≡ err e
        → encode_page scratch s ≡ err e
    encoded f (ok page) q h = cc
    encoded f (err e') q h = q ∙ (let same : e' ≡ e = cc in ap err same)
