-- ===== src/Page/Writer/System.antt =====
-- The writer of budget/v1alpha1/page.go beside its page: one store at a time, with a crash between any
-- two stores, and the two sides of the seqlock (PageWriter.Publish, PageWriter.Resume).
use apis.Prelude.{ℕ, ◌+◌, ◌*◌, ◌/◌, ◌^◌, ◌<◌, ◌≡◌, List, [], ◌∷◌, map, range}
use apis.Page.Bytes.{Memory, read_le}
use apis.Page.Snapshot.{PageSnapshot, page_seq_offset, page_header_size}
use apis.Page.Layout.{page_body_size}
use apis.Page.Encode.{ok, Buffer, encode_page}
use apis.Page.Writer.{Words, Store, store, scratch, PageWriter, fresh_writer, publish, resume}

abbrev pub seq_of : Words → ℕ
seq_of words = words page_seq_offset

-- The number of words of the body.
unfoldable pub body_count : ℕ
unfolding page_body_size
body_count = (page_body_size + 7) / 8

-- The words of the body, in order.
unfoldable pub body_of : Words → List ℕ
body_of words = map (λ k. words (page_header_size + 8 * k)) (range body_count)

-- The same of a page in memory.
unfoldable pub page_words : Memory → List ℕ
page_words page = map (λ k. read_le page (page_header_size + 8 * k) 8) (range body_count)

-- The body is that of a page that EncodePage made.
pub record IsPage (words : Words) : Type 0 where
  pub snapshot : PageSnapshot
  pub page : Buffer
  pub encoded : encode_page scratch snapshot ≡ ok page
  pub body : body_of words ≡ page_words page.at

-- A writer, the page, and the stores that its running call has still to do.
pub record System : Type 0 where
  pub words : Words
  pub pending : List Store
  pub writer : PageWriter

-- `crashing` is the death of the process at any point, and the NewPageWriter of the next one. The bound
-- of `publishing` leaves out a seq that is about to wrap, after some 2 ^ 63 publications.
pub data Step (s : System) : System → Type 0 where
  publishing :
      (snapshot : PageSnapshot) {stores : List Store} {w : PageWriter}
      → s.pending ≡ []
      → s.writer.seq + 3 < 2 ^ 64
      → publish s.writer snapshot ≡ ok (stores, w)
      → Step s (record { words = s.words; pending = stores; writer = w })
  resuming :
      {stores : List Store} {w : PageWriter}
      → s.pending ≡ []
      → resume s.words s.writer ≡ ok (stores, w)
      → Step s (record { words = s.words; pending = stores; writer = w })
  writing :
      {st : Store} {rest : List Store}
      → s.pending ≡ st ∷ rest
      → Step s (record { words = store s.words st; pending = rest; writer = s.writer })
  crashing : Step s (record { words = s.words; pending = []; writer = fresh_writer })

pub data Reach (s : System) : System → Type 0 where
  here : Reach s s
  later : {t u : System} → Reach s t → Step t u → Reach s u

-- A page file of zeros and a writer over it.
abbrev pub start : System
start = record { words = λ _. 0; pending = []; writer = fresh_writer }
