-- ===== src/Quorum/Acceptor/Process.antt =====
-- `process` on a live acceptor and on a wedged one.
use icegres.Prelude.{◌≡◌, Bool, true, false, arith}
use icegres.Prelude.Bytes.{Bytes}
use icegres.Segment.{Crc}
use icegres.Quorum.Message.{Message, is_wedged}
use icegres.Quorum.Stores.{ControlStore, WalStore}
use icegres.Quorum.Acceptor.{Node, handle, process, response}

module _ (c : Crc) (is_utf8 : Bytes → Bool) (cs : ControlStore) (ws : WalStore) where
  module _ (m : Message) (a : Node c is_utf8 cs ws) where
    pub process-live :
        a.wedged ≡ false
        → process c is_utf8 cs ws m a ≡ (
          response c is_utf8 cs ws (handle c is_utf8 cs ws m a).0,
          (handle c is_utf8 cs ws m a).1,
        )
    process-live w = unfold process in ground arith

    pub process-wedged :
        a.wedged ≡ true → process c is_utf8 cs ws m a ≡ (Message.error is_wedged, a)
    unfolding process
    process-wedged w = ground arith
