-- ===== src/Tracker/Waiting.antt =====
-- From a device's package to the thread that waits for it.
use g7ctrl.Common.{
  All, All-append, Bytes, List, ap, arith, cstr, length, none, refl, some, success, ℕ, ◌++◌, ◌<◌,
  ◌∙◌, ◌∷◌, ◌≡◌, ◌≤◌,
}
use g7ctrl.Xstr.Utf8.{xmb_strncpy}
use g7ctrl.Xstr.Utf8.Whole.{NoNul, xmb_strncpy_whole}
use g7ctrl.Xstr.Split.RoundTrip.{Lacks, join}
use g7ctrl.CmdQueue.{
  CmdQueue, cmdqueue_insert, cmdqueue_match, deliver_reply, Glance, cmdqueue_check_reply,
}
use g7ctrl.CmdQueue.Queue.{IsValid}
use g7ctrl.CmdQueue.Deliver.{match-insert, check_reply-deliver-insert}
use g7ctrl.DeviceReply.{ends_cmd, ends_tag}
use g7ctrl.DeviceReply.Parse.{
  Word, Word-chars, ok_reply, cstr-IsChar, extract_devcmd_reply-ok_reply,
}
use g7ctrl.Tracker.{reply_tag, handle_cmd_reply_package}

reply_tag-ok_reply :
    (cli_devid : ℕ) (cmd tag : Bytes) (flds : List Bytes)
    → Word ends_cmd cmd
    → 0 < length cmd
    → length cmd ≤ 12
    → Word ends_tag tag
    → length tag ≤ 5
    → All (λ f. Lacks b',' f × (length f < 256)) flds
    → length flds ≤ 63
    → 0 < length (join b',' flds)
    → length (join b',' flds) < 1024
    → All (λ c. 0 < c) (join b',' flds)
    → reply_tag cli_devid (ok_reply cmd tag flds) ≡ some tag
unfolding reply_tag
reply_tag-ok_reply cli_devid cmd tag flds hc pc nc ht nt hf nf long lim chars =
    rw
      (
        extract_devcmd_reply-ok_reply cmd tag flds hc pc nc ht nt hf nf long lim chars,
        cstr-IsChar tag (Word-chars ends_tag tag ht),
      )
      refl

pub package-matched :
    (cli_devid : ℕ) (q : CmdQueue) (buffer tag : Bytes) (i : ℕ)
    → reply_tag cli_devid buffer ≡ some tag
    → cmdqueue_match q cli_devid tag ≡ some i
    → handle_cmd_reply_package cli_devid q buffer
      ≡ (success, (deliver_reply q cli_devid tag (cstr buffer)).1)
unfolding handle_cmd_reply_package
package-matched cli_devid q buffer tag i t m = rw (t, handle_cmd_reply_package) (rw m refl)

reply_delivered :
    (now : ℕ) (q : CmdQueue) (sock devid : ℕ) (tag cmdstr : Bytes) (i : ℕ) (q1 : CmdQueue)
    (cmd : Bytes) (flds : List Bytes) (maxreply later : ℕ) (glances : List Glance)
    → IsValid q
    → 0 < devid
    → cmdqueue_match q devid tag ≡ none
    → cmdqueue_insert now q sock devid tag cmdstr ≡ (some i, q1)
    → Word ends_cmd cmd
    → 0 < length cmd
    → length cmd ≤ 12
    → Word ends_tag tag
    → length tag ≤ 5
    → All (λ f. Lacks b',' f × (length f < 256)) flds
    → length flds ≤ 63
    → 0 < length (join b',' flds)
    → length (join b',' flds) < 1024
    → All (λ c. 0 < c) (join b',' flds)
    → ((handle_cmd_reply_package devid q1 (ok_reply cmd tag flds)).0 ≡ success)
      × (cmdqueue_check_reply q1 i maxreply (
            record {
              queue = (handle_cmd_reply_package devid q1 (ok_reply cmd tag flds)).1;
              now = later;
            }
            ∷ glances)
          ≡ some (some (xmb_strncpy (xmb_strncpy (cstr (ok_reply cmd tag flds)) 1023) maxreply), q))
reply_delivered now q sock devid tag cmdstr i q1 cmd flds maxreply later glances v d none_yet e hc
      pc nc ht nt hf nf long lim chars =
    let t = reply_tag-ok_reply devid cmd tag flds hc pc nc ht nt hf nf long lim chars in
    let m = match-insert now q sock devid tag cmdstr i q1 v d none_yet e in
    let p = package-matched devid q1 (ok_reply cmd tag flds) tag i t m in
    rw p (
      refl,
      check_reply-deliver-insert now q sock devid tag cmdstr i q1 (cstr (ok_reply cmd tag flds))
          maxreply later glances v d none_yet e,
    )

ok_reply-NoNul :
    (cmd tag : Bytes) (flds : List Bytes)
    → Word ends_cmd cmd
    → Word ends_tag tag
    → NoNul (join b',' flds)
    → NoNul (ok_reply cmd tag flds)
ok_reply-NoNul cmd tag flds hc ht chars =
    let tail =
      All-append (λ c. 0 < c) tag (b'=' ∷ join b',' flds) (Word-chars ends_tag tag ht)
        (omega arith, chars) in
    let rest =
      All-append (λ c. 0 < c) cmd (b'+' ∷ (tag ++ b'=' ∷ join b',' flds))
        (Word-chars ends_cmd cmd hc) (omega arith, tail) in
    (omega arith, (omega arith, (omega arith, (omega arith, rest))))

copied_twice :
    (s : Bytes) (maxreply : ℕ)
    → NoNul s
    → length s < 1023
    → length s < maxreply
    → xmb_strncpy (xmb_strncpy (cstr s) 1023) maxreply ≡ s
copied_twice s maxreply h small fits =
    rw (cstr-IsChar s h, xmb_strncpy_whole s 1023 h small) (xmb_strncpy_whole s maxreply h fits)

-- On a valid queue where no command for the device and the tag waits, a command is inserted. A
-- package `$OK:<command>+<tag>=<fields>` with its tag arrives, where the command has 1 to 12
-- bytes, the tag at most 5 and the fields are ones that `xstrsplitfields` keeps. The package is
-- shorter than 1023 bytes and than the reader's buffer. Then it is accepted, a wait that sees the
-- queue afterwards answers the whole package, and the queue is as before the insertion.
pub reply_reaches_waiter :
    (now : ℕ) (q : CmdQueue) (sock devid : ℕ) (tag cmdstr : Bytes) (i : ℕ) (q1 : CmdQueue)
    (cmd : Bytes) (flds : List Bytes) (maxreply later : ℕ) (glances : List Glance)
    → IsValid q
    → 0 < devid
    → cmdqueue_match q devid tag ≡ none
    → cmdqueue_insert now q sock devid tag cmdstr ≡ (some i, q1)
    → Word ends_cmd cmd
    → 0 < length cmd
    → length cmd ≤ 12
    → Word ends_tag tag
    → length tag ≤ 5
    → All (λ f. Lacks b',' f × (length f < 256)) flds
    → length flds ≤ 63
    → 0 < length (join b',' flds)
    → length (join b',' flds) < 1024
    → All (λ c. 0 < c) (join b',' flds)
    → length (ok_reply cmd tag flds) < 1023
    → length (ok_reply cmd tag flds) < maxreply
    → ((handle_cmd_reply_package devid q1 (ok_reply cmd tag flds)).0 ≡ success)
      × (cmdqueue_check_reply q1 i maxreply (
            record {
              queue = (handle_cmd_reply_package devid q1 (ok_reply cmd tag flds)).1;
              now = later;
            }
            ∷ glances)
          ≡ some (some (ok_reply cmd tag flds), q))
reply_reaches_waiter now q sock devid tag cmdstr i q1 cmd flds maxreply later glances v d none_yet e
      hc pc nc ht nt hf nf long lim chars small fits =
    let r =
      reply_delivered now q sock devid tag cmdstr i q1 cmd flds maxreply later glances v d none_yet
        e hc pc nc ht nt hf nf long lim chars in
    let whole =
      copied_twice (ok_reply cmd tag flds) maxreply (ok_reply-NoNul cmd tag flds hc ht chars) small
        fits in
    (r.0, r.1 ∙ ap (λ t. some (some t, q)) whole)
