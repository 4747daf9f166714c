-- ===== src/Stream.antt =====
-- apps/web/src/streamBuffer.ts: the buffer that joins the deltas of a stream into batches. The timer is
-- a flag, and the calls of `onFlush` are listed, newest first.
pub mod Batches
mod Examples
use Prim.Native.String.{◌++◌ as ◌+s◌}
use vibe_go.Base.{
  ℕ, String, Bool, true, false, ◌&&◌, Option, List, [], ◌∷◌, ◌++◌, ◌==◌, ◌=s◌, if◌then◌else◌,
}

-- A stored event; what else it holds, the buffer only passes on.
pub record Event : Type 0 where
  pub id : String
  pub seq : ℕ

pub record StreamFlushBatch : Type 0 where
  pub text : String
  pub events : List Event
  pub last_event_seq : ℕ

pub record StreamBuffer : Type 0 where
  pub text : String
  pub events : List Event
  pub last_event_seq : ℕ
  pub armed : Bool
  pub flushed : List StreamFlushBatch

abbrev pub new : StreamBuffer
new = record { text = ""; events = []; last_event_seq = 0; armed = false; flushed = [] }

is_empty : List Event → Bool
is_empty [] = true
is_empty (e ∷ es) = false

pub push : Event → String → StreamBuffer → StreamBuffer
push e delta b = record b {
  text = b.text +s delta;
  events = b.events ++ e ∷ [];
  last_event_seq = e.seq;
  armed = true;
}

-- The batch that is passed on, and the buffer cleared.
pub emit : StreamBuffer → StreamBuffer
emit b = record {
  text = "";
  events = [];
  last_event_seq = 0;
  armed = false;
  flushed =
      record { text = b.text; events = b.events; last_event_seq = b.last_event_seq } ∷ b.flushed;
}

-- Also what the timer calls.
pub flush : StreamBuffer → StreamBuffer
unfolding is_empty
flush b =
    if (b.text =s "") && is_empty b.events && (b.last_event_seq == 0)
    then record b { armed = false }
    else emit b

pub reset : StreamBuffer → StreamBuffer
reset b = record b { text = ""; events = []; last_event_seq = 0; armed = false }
