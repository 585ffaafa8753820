-- ===== src/Page/Writer.antt =====
-- PageWriter of budget/v1alpha1/page.go: NewPageWriter, Resume and Publish. The mapping is the 8-byte
-- word at each offset that is a multiple of 8; an operation answers its atomic stores in order, and
-- the writer after them. The test seam headerStored is left out.
pub mod Header
pub mod Rollback
pub mod System
pub mod Stores
pub mod Good
pub mod Publishing
pub mod Seqlock
pub mod Effects
use apis.Prelude.{
  ℕ, zero, suc, ◌+◌, ◌-◌, ◌*◌, ◌/◌, ◌%◌, ◌^◌, pos, Bool, true, false, not, ◌&&◌, ◌||◌, Option, none,
  some, List, [], ◌∷◌, ◌++◌, map, flat_map, String, if◌then◌else◌, ◌==◌, ltb, length, range, codes,
  bytes_eq,
}
use apis.Budget.Types.{Time, LinuxSignals}
use apis.Page.Bytes.{Memory, byte_of, read_le, zeroed}
use apis.Page.Snapshot.{
  PageSnapshot, page_abi_major, page_header_size, page_magic, page_size, page_seq_offset,
  page_notify_epoch_offset,
}
use apis.Page.Layout.{page_offset, page_body_end, page_body_size}
use apis.Page.Encode.{
  Result, ok, err, ◌>>=◌, Buffer, page_buffer, page_writer_not_resumed, encode_page,
}
use apis.Page.Notify.{PageNotifyKey, notify_key_of, key_eq}

-- The word at each byte offset that is a multiple of 8.
abbrev pub Words : Type 0
Words = ℕ → ℕ

-- An atomic store of a word at an offset.
abbrev pub Store : Type 0
Store = ℕ × ℕ

unfoldable pub store : Words → Store → Words
store words (off, v) i = if i == off then v else words i

unfoldable pub apply : List Store → Words → Words
unfolding store
apply [] words = words
apply (st ∷ stores) words = apply stores (store words st)

pub record PageWriter : Type 0 where
  pub seq : ℕ
  pub epoch : ℕ
  pub resumed : Bool
  pub last : PageNotifyKey
  pub has_last : Bool

abbrev no_key : PageNotifyKey
no_key = record { level = ""; admit = false; generation = pos 0; ladder = [] }

abbrev pub fresh_writer : PageWriter
fresh_writer = record { seq = 0; epoch = 0; resumed = false; last = no_key; has_last = false }

-- NewPageWriter, from the mapping's length, its alignment and the host's byte order.
unfoldable pub new_page_writer : ℕ → Bool → Bool → Result PageWriter
new_page_writer len aligned little_endian =
    if ltb len page_size
    then err page_buffer
    else if not aligned
    then err page_buffer
    else if not little_endian
    then err page_buffer
    else ok fresh_writer

abbrev pub u64 : ℕ → ℕ
u64 n = n % 2 ^ 64

abbrev pub scratch : Buffer
scratch = record { len = page_size; at = zeroed }

-- The stores of the body loop of Publish, one for each word from PageHeaderSize to pageBodyEnd.
unfoldable pub body_stores : Memory → List Store
unfolding page_body_size
body_stores page =
    map (λ k. (page_header_size + 8 * k, read_le page (page_header_size + 8 * k) 8))
      (range ((page_body_size + 7) / 8))

abbrev pub epoch_store : Bool → ℕ → List Store
epoch_store due epoch = if due then (page_notify_epoch_offset, epoch) ∷ [] else []

unfoldable pub due : PageWriter → PageSnapshot → Bool
due w s = not w.has_last || not (key_eq (notify_key_of s) w.last)

-- The writer after a publication of s.
unfoldable pub published : PageWriter → PageSnapshot → PageWriter
unfolding due
published w s = record {
  seq = u64 (w.seq + 2);
  epoch = if due w s then u64 (w.epoch + 1) else w.epoch;
  resumed = w.resumed;
  last = notify_key_of s;
  has_last = true;
}

-- Publish
unfoldable pub publish : PageWriter → PageSnapshot → Result (List Store × PageWriter)
publish w s = if not w.resumed then err page_writer_not_resumed else do
  page ← encode_page scratch s
  let w' = published w s
  ok (
    (page_seq_offset, u64 (w.seq + 1)) ∷ body_stores page.at
        ++ ((page_seq_offset, w'.seq) ∷ epoch_store (due w s) w'.epoch),
    w',
  )

-- The snapshot whose page gives encodeHeader the header line.
abbrev header_snapshot : PageSnapshot
header_snapshot = record {
  generation = pos 0;
  writer_period_seconds = pos 1;
  node_name = codes "-";
  observed_at = record { unix = pos 1; is_zero = false };
  platform = "linux";
  capacity = record {
    cpu_capacity_milli = none;
    cpu_system_reserve_milli = none;
    mem_capacity_bytes = none;
    mem_system_reserve_bytes = none;
    mem_eviction_reserve_bytes = none;
    mem_allocatable_bytes = none;
    swap_total_bytes = none;
    swap_used_bytes = none;
    cpu_performance_cores = none;
    cpu_efficiency_cores = none;
    gpu_present = none;
    gpu_count = none;
  };
  level = "ok";
  darwin = none;
  linux = some (record { psi = none; memory_events = none });
  signals = [];
  admit = false;
  admit_reason_signal = "";
  evict_deadline = none;
  kill_mode = record { mode = ""; armed = false; arming_episodes = pos 0; reason = "" };
  recommendation = record { safe_additional_bytes = none; basis = "" };
  counters = [];
}

-- encodeHeader
unfoldable pub encode_header : Buffer → Result Buffer
encode_header dst = encode_page dst header_snapshot

-- pageOffset of a name that the layout has.
unfoldable pub offset_of : String → ℕ
unfolding page_offset
offset_of name = elim (page_offset name) [ none ↦ 0 | some o ↦ o ]

-- The bytes of the header line that Resume copies out of its words.
unfoldable pub header_byte : Words → Memory
unfolding byte_of
header_byte words i = byte_of (words (i / 8 * 8)) (i % 8)

-- Resume's test that the page already holds this ABI major.
unfoldable pub recognised : Words → Bool
unfolding header_byte read_le offset_of
recognised words =
    let hdr = header_byte words in
    bytes_eq (map hdr (range (length (codes page_magic)))) (codes page_magic)
    && read_le hdr (offset_of "abiMajor") 2 == page_abi_major
    && read_le hdr (offset_of "headerSize") 4 == page_header_size

-- Resume's test that this minor's body is shorter than the page's.
unfoldable pub shrinks : Words → Bool
unfolding recognised page_body_size
shrinks words =
    recognised words && ltb page_body_size (read_le (header_byte words) (offset_of "bodySize") 4)

-- `&^ 7`
abbrev pub word_at : ℕ → ℕ
word_at off = off / 8 * 8

unfoldable pub minor_word : ℕ
unfolding offset_of
minor_word = word_at (offset_of "abiMinor")

unfoldable pub size_word : ℕ
unfolding offset_of
size_word = word_at (offset_of "bodySize")

-- The loop `for off := PageSeqOffset - 8; off > 0; off -= 8`.
unfoldable pub other_words : List ℕ
unfolding minor_word size_word
other_words =
    flat_map
      (λ k.
        let off = page_seq_offset - 8 - 8 * k in
        if off == minor_word || off == size_word then [] else off ∷ [])
      (range (page_seq_offset / 8 - 1))

-- The order of Resume's header stores.
unfoldable pub header_order : Bool → List ℕ
unfolding other_words
header_order shrinks =
    other_words
    ++ ((if shrinks then minor_word ∷ size_word ∷ [] else size_word ∷ minor_word ∷ []) ++ 0 ∷ [])

abbrev pub header_stores : Memory → Bool → List Store
header_stores page shrinks = map (λ off. (off, read_le page off 8)) (header_order shrinks)

-- The seq that Resume takes over: the page's, an odd one rounded up.
unfoldable pub resumed_seq : Words → ℕ
resumed_seq words =
    let seq = words page_seq_offset in
    if recognised words then (if seq % 2 == 1 then u64 (seq + 1) else seq) else 0

unfoldable pub resumed_epoch : Words → ℕ
resumed_epoch words = if recognised words then words page_notify_epoch_offset else 0

-- Resume
unfoldable pub resume : Words → PageWriter → Result (List Store × PageWriter)
resume words w = do
  fresh ← encode_header scratch
  ok (
    header_stores fresh.at (shrinks words),
    record w {
      seq = resumed_seq words;
      epoch = resumed_epoch words;
      resumed = true;
      has_last = false;
    },
  )
