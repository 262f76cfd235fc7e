-- ===== src/EventLoop/Laws.antt =====
-- What the event loop relies on of `put_packet`.
use libgdb.Prelude.{ℕ, ◌≡◌, ◌++◌, length}
use libgdb.Prelude.Outcome.{Outcome, ok, ◌>>=◌, Ensures}
use libgdb.Util.Buffer.{Bytes}
use libgdb.Framing.{Sent, unanswered, acknowledged, resent}
use libgdb.Framing.Chunks.{ShorterSent}
use libgdb.EventLoop.{Wire}

module _ (w : Wire) where
  -- `put_packet` on a second part of the replies.
  abbrev pub continue_put : Bytes → Bytes → w.Sender × Sent → Outcome (w.Sender × Sent)
  continue_put buf stream (sender, unanswered out) =
      w.await_reply sender buf stream >>= λ (sender', s). ok (sender', resent out s)
  continue_put buf stream (sender, acknowledged rest out) =
      ok (sender, acknowledged (rest ++ stream) out)

  abbrev pub IsShorter : ℕ → w.Sender × Sent → Type 0
  IsShorter n (sender, s) = ShorterSent n s

  -- The replies may come in two parts, and an acknowledgement is one of the characters.
  pub record IsWire : Type 0 where
    pub put_append :
        (sender : w.Sender) (buf s s' : Bytes)
        → w.put_packet sender buf (s ++ s') ≡ (w.put_packet sender buf s >>= continue_put buf s')
    pub await_append :
        (sender : w.Sender) (buf s s' : Bytes)
        → w.await_reply sender buf (s ++ s') ≡ (w.await_reply sender buf s >>= continue_put buf s')
    pub put_shorter :
        (sender : w.Sender) (buf s : Bytes)
        → Ensures (IsShorter (length s)) (w.put_packet sender buf s)
    pub await_shorter :
        (sender : w.Sender) (buf s : Bytes)
        → Ensures (IsShorter (length s)) (w.await_reply sender buf s)
    pub share_share : (a b c : w.Sender) → w.share (w.share a b) c ≡ w.share a c
