-- ===== src/Samples/WriterTests.antt =====
-- The theorems on the page writer of budget/v1alpha1/page.go at a first start and one publication.
use apis.Prelude.{
  bytes_eq, ◌+◌, ◌*◌, ◌≡◌, refl, true, some, List, [], ◌∷◌, map, range, arith, if◌then◌else◌,
}
use apis.Page.Snapshot.{PageSnapshot, page_header_size, page_seq_offset, page_notify_epoch_offset}
use apis.Page.Encode.{ok, err, Buffer, encode_page, check_page_snapshot, put_fields, copy_page}
use apis.Page.Layout.{page_layout}
use apis.Page.Notify.{page_notify_due}
use apis.Page.Writer.{
  Words, Store, store, apply, PageWriter, fresh_writer, scratch, u64, due, published, publish,
  recognised, shrinks, resumed_seq,
}
use apis.Page.Writer.Header.{store_list, resumed_writer, resume_lem}
use apis.Page.Writer.System.{seq_of, System, Step, Reach, body_count, body_of, page_words, start}
use apis.Page.Writer.Publishing.{stores_of}
use apis.Page.Writer.Seqlock.{reader_copy}
use apis.Page.Writer.Effects.{publish-effect, publish-epoch}
use apis.Samples.{snapshot}

scratch_page : Buffer
unfolding encode_page check_page_snapshot put_fields page_layout copy_page
scratch_page = elim (encode_page scratch snapshot) [ ok page ↦ page | err _ ↦ scratch ]

scratch_page-ok : encode_page scratch snapshot ≡ ok scratch_page
unfolding scratch_page
scratch_page-ok = refl

abbrev resumed : PageWriter
resumed = resumed_writer start.words fresh_writer

abbrev header : List Store
header = store_list (shrinks start.words)

abbrev stores_for : PageWriter → List Store
stores_for w = stores_of w.seq (published w snapshot).epoch (due w snapshot) scratch_page

publish-ok :
    (w : PageWriter)
    → w.resumed ≡ true
    → publish w snapshot ≡ ok (stores_for w, published w snapshot)
unfolding publish published
publish-ok w h = rw (h, scratch_page-ok) refl

-- All the stores of a call, one after the other.
finished :
    {s : System} (words : Words) (stores : List Store) (w : PageWriter)
    → Reach s (record { words = words; pending = stores; writer = w })
    → Reach s (record { words = apply stores words; pending = []; writer = w })
unfolding apply
finished words [] w r = r
finished words (st ∷ stores) w r =
    finished (store words st) stores w (Reach.later r (Step.writing refl))

-- The system after NewPageWriter, Resume and Publish over a page of zeros.
abbrev first_page : Words
first_page = apply (stores_for resumed) (apply header start.words)

abbrev first : System
first = record { words = first_page; pending = []; writer = published resumed snapshot }

Reach-first : Reach start first
unfolding resumed_seq recognised bytes_eq
Reach-first =
    let taken = Reach.later Reach.here (Step.resuming refl (resume_lem start.words fresh_writer)) in
    let opened = finished start.words header resumed taken in
    let begun =
      Reach.later opened (Step.publishing snapshot refl (omega arith) (publish-ok resumed refl)) in
    finished (apply header start.words) (stores_for resumed) (published resumed snapshot) begun

first_seq : seq_of first_page ≡ 2
unfolding published resumed_seq recognised bytes_eq
first_seq = (publish-effect (apply header start.words) resumed snapshot (publish-ok resumed refl)).3

reader_copy_example :
    (s : PageSnapshot) × (page : Buffer) × (encode_page scratch s ≡ ok page)
    × (map (λ k. first_page (page_header_size + 8 * k)) (range body_count) ≡ page_words page.at)
reader_copy_example =
    reader_copy (λ k. first) Reach-first (omega (arith, first_seq)) (λ e. omega (arith, first_seq))
      refl (λ k. Reach.here) (λ k. Reach.here)

publish-effect_example :
    (page : Buffer) × (encode_page scratch snapshot ≡ ok page)
    × (body_of first_page ≡ page_words page.at)
    × (first_page page_seq_offset ≡ (published resumed snapshot).seq)
    × (first_page page_notify_epoch_offset ≡ (
        if due resumed snapshot
        then (published resumed snapshot).epoch
        else apply header start.words page_notify_epoch_offset))
publish-effect_example =
    publish-effect (apply header start.words) resumed snapshot (publish-ok resumed refl)

abbrev second_writer : PageWriter
second_writer = published resumed snapshot

resumed_still : second_writer.resumed ≡ true
unfolding published
resumed_still = refl

publish-epoch_example :
    ((published second_writer snapshot).epoch ≡ (
      if page_notify_due (some snapshot) snapshot
      then u64 (second_writer.epoch + 1)
      else second_writer.epoch))
    × ((published second_writer snapshot).seq ≡ u64 (second_writer.seq + 2))
publish-epoch_example =
    publish-epoch resumed snapshot snapshot (publish-ok resumed refl)
      (publish-ok second_writer resumed_still)
