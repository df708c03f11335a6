-- ===== src/Streambuf/Delivery/View.antt =====
-- The part of a reader's state that reading changes, and the bytes that it still has to come.
use fcgi.Prelude.{ℕ, ◌+◌, ◌%◌, ◌≤◌, ◌<◌, ◌≡◌, true, false, List, [], ◌∷◌, ◌++◌, length, arith}
use fcgi.Net.Descriptor.{Arrival, arrives, recv_fails}
use fcgi.Streambuf.{St, is_reader, reader_ok}
use fcgi.Streambuf.Setup.{IsReading}

pub record View : Type 0 where
  pub arrivals : List Arrival
  pub eback : ℕ
  pub gptr : ℕ
  pub egptr : ℕ
  pub unread : List ℕ
  pub content : ℕ
  pub padding : ℕ

abbrev pub view : List Arrival → ℕ → ℕ → ℕ → List ℕ → ℕ → ℕ → View
view arrivals eback gptr egptr unread content padding = record {
  arrivals = arrivals;
  eback = eback;
  gptr = gptr;
  egptr = egptr;
  unread = unread;
  content = content;
  padding = padding;
}

-- The reader `s`, open and in the midst of its stream, at a view.
abbrev pub at : St → View → St
at s v = record {
  connection = record s.connection { io = record s.connection.io { arrivals = v.arrivals } };
  buf = record s.buf {
    is_content_must_be_discarded = false;
    is_end_of_stream = false;
    has_get = true;
    has_put = false;
    eback = v.eback;
    gptr = v.gptr;
    egptr = v.egptr;
    unread = v.unread;
    unread_content_length = v.content;
    unread_padding_length = v.padding;
  };
}

-- What does not change: a reader of a size and a type that suit its connection.
pub record IsReader (s : St) : Type 0 where
  pub is_reading : is_reader s.buf ≡ true
  pub suits_role : reader_ok s.connection.role s.buf.type ≡ true
  pub large : 2048 ≤ s.buf.buffer_size
  pub small : s.buf.buffer_size ≤ 65528
  pub whole : s.buf.buffer_size % 8 ≡ 0

-- The bytes of all arrivals.
abbrev pub incoming : List Arrival → List ℕ
incoming [] = []
incoming (arrives bs ∷ rest) = bs ++ incoming rest
incoming (recv_fails ∷ rest) = []

-- No arrival is empty, and no ::recv fails.
abbrev pub IsLive : List Arrival → Type 0
IsLive [] = Unit {0}
IsLive (arrives bs ∷ rest) = (0 < length bs) × IsLive rest
IsLive (recv_fails ∷ rest) = ⊥

abbrev pub pending : View → List ℕ
pending v = v.unread ++ incoming v.arrivals

-- The buffer holds what is unread, and the rest arrives.
pub record IsOpen (s : St) (v : View) : Type 0 where
  pub in_buffer : v.gptr + length v.unread ≤ s.buf.buffer_size
  pub live : IsLive v.arrivals

pub at-IsReading : (s : St) (v : View) → IsReader s → IsOpen s v → IsReading (at s v)
at-IsReading s v r o = ground arith
