-- ===== src/Tracker/Delivered.antt =====
-- A reply in the data that is read from a device, and the queue of commands.
use g7ctrl.Common.{
  All-append, Bytes, List, Rc, [], ap, arith, cstr, refl, some, ℕ, ◌++◌, ◌<◌, ◌∙◌, ◌∷◌, ◌≡◌,
}
use g7ctrl.CmdQueue.{CmdQueue, cmdqueue_match, deliver_reply}
use g7ctrl.DeviceReply.{ends_tag}
use g7ctrl.DeviceReply.Parse.{ok_reply, Word-chars, cstr-IsChar}
use g7ctrl.DeviceReply.Wire.{
  crnl, IsReply, Line-chars, cstr-append, extract_devcmd_reply-wire, ok_reply-Line,
}
use g7ctrl.Tracker.{reply_tag}
use g7ctrl.Tracker.Waiting.{package-matched}
use g7ctrl.Tracker.Events.{
  Device, arriving_package_type, handle_event, handle_data, handle_data_each, stream,
}

reply_tag-wire :
    (devid : ℕ) (cmd tag f : Bytes) (fs : List Bytes) (stale : Bytes)
    → IsReply cmd tag (f ∷ fs)
    → reply_tag devid ((ok_reply cmd tag (f ∷ fs) ++ crnl) ++ 0 ∷ stale) ≡ some tag
unfolding reply_tag
reply_tag-wire devid cmd tag f fs stale r =
    rw
      (
        extract_devcmd_reply-wire cmd tag f fs stale r,
        cstr-IsChar tag (Word-chars ends_tag tag r.tag_word),
      )
      refl

cstr-wire :
    (cmd tag f : Bytes) (fs : List Bytes) (stale : Bytes)
    → IsReply cmd tag (f ∷ fs)
    → cstr ((ok_reply cmd tag (f ∷ fs) ++ crnl) ++ 0 ∷ stale) ≡ ok_reply cmd tag (f ∷ fs) ++ crnl
cstr-wire cmd tag f fs stale r =
    let e = ok_reply cmd tag (f ∷ fs) in
    cstr-append (e ++ crnl) stale (
      All-append (λ c. 0 < c) e crnl (Line-chars e (ok_reply-Line cmd tag (f ∷ fs) r))
        (omega arith, (omega arith, tt)))

event_delivered :
    (devid : ℕ) (d : Device) (cmd tag f : Bytes) (fs : List Bytes) (stale : Bytes) (i : ℕ)
    → IsReply cmd tag (f ∷ fs)
    → cmdqueue_match d.queue devid tag ≡ some i
    → handle_event devid d (ok_reply cmd tag (f ∷ fs) ++ crnl) stale
      ≡ record d { queue = (deliver_reply d.queue devid tag (ok_reply cmd tag (f ∷ fs) ++ crnl)).1 }
unfolding handle_event arriving_package_type
event_delivered devid d cmd tag f fs stale i r m =
    let memory = (ok_reply cmd tag (f ∷ fs) ++ crnl) ++ 0 ∷ stale in
    let t = reply_tag-wire devid cmd tag f fs stale r in
    ap (λ (p : Rc × CmdQueue). record d { queue = p.1 })
      (package-matched devid d.queue memory tag i t m)
    ∙ ap (λ b. record d { queue = (deliver_reply d.queue devid tag b).1 })
        (cstr-wire cmd tag f fs stale r)

-- A read brings a reply to a command that waits in the queue, with its line end, and the buffer holds
-- anything behind it: the entry of the command gets the reply, line end included, and no location is
-- stored.
pub handle_data-delivers :
    (devid : ℕ) (d : Device) (cmd tag f : Bytes) (fs : List Bytes) (stale : Bytes) (i : ℕ)
    → IsReply cmd tag (f ∷ fs)
    → cmdqueue_match d.queue devid tag ≡ some i
    → handle_data devid d (stream (ok_reply cmd tag (f ∷ fs) ∷ []) stale)
      ≡ record d { queue = (deliver_reply d.queue devid tag (ok_reply cmd tag (f ∷ fs) ++ crnl)).1 }
handle_data-delivers devid d cmd tag f fs stale i r m =
    handle_data_each devid d (ok_reply cmd tag (f ∷ fs)) [] stale
      (ok_reply-Line cmd tag (f ∷ fs) r, omega arith) tt (omega arith)
    ∙ event_delivered devid d cmd tag f fs stale i r m
