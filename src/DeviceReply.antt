-- ===== src/DeviceReply.antt =====
-- A device's reply and what the user is told of it, of src/g7sendcmd.c. `raw` is the memory from the
-- pointer on: the string, its NUL, and what follows, which the scans of `extract_devcmd_reply` may
-- reach, since they do not test for the NUL. A byte behind the list is 0.
pub mod Parse
pub mod Bounds
pub mod Answer
pub mod Wire
use g7ctrl.Common.{
  Bool, Bytes, List, Option, Rc, [], codes, cstr, drop, failure, false, get_or, if◌then◌else◌, leb,
  length, ltb, none, not, set, some, str_eq, suc, success, take, true, zero, ℕ, ◌&&◌, ◌-◌, ◌==◌,
  ◌||◌, ◌∷◌,
}
use g7ctrl.Common.Int.{ℤ, pos, negsuc}
use g7ctrl.Xstr.Copy.{xstrlcpy, xstrlcat}
use g7ctrl.Xstr.Number.{xatoi}
use g7ctrl.Xstr.Utf8.{xmb_strncpy}
use g7ctrl.DevCmd.Translate.{cmdarg_to_text}
use g7ctrl.Xstr.Split.{xstrsplitfields}

abbrev pub head : Bytes → ℕ
head p = get_or p 0 0

pub record Scan : Type 0 where
  pub taken : Bytes
  pub rest : Bytes
  pub spent : Bool

-- `while (max-- > 0 && *pp != ...) ++pp; if (0 == max) ...`: `spent` is the test behind the loop. When
-- the loop ends because `max` was 0, `max` has become the largest `size_t`, and the test fails.
pub scan : (ℕ → Bool) → ℕ → Bytes → Scan
scan stop zero p = record { taken = []; rest = p; spent = false }
scan stop (suc max) p =
    let more = scan stop max (drop 1 p) in
    if stop (head p)
    then record { taken = []; rest = p; spent = max == 0 }
    else record more { taken = head p ∷ more.taken }

abbrev pub ends_cmd : ℕ → Bool
ends_cmd c = c == b'+' || c == b'='

abbrev pub ends_tag : ℕ → Bool
ends_tag c = c == b'=' || c == b'\r' || c == b'\n'

-- The out parameters of `extract_devcmd_reply`.
pub record DevReply : Type 0 where
  pub isok : Bool
  pub cmd : Bytes
  pub tag : Bytes
  pub flds : List Bytes

-- `if (xstrsplitfields(p, ',', flds)) return -1;` and what follows. The last test of the source,
-- `!isok && flds->nf != 1`, negates the pointer `isok`, which is not null, so it never holds.
abbrev pub split_fields : Bool → Bytes → Bytes → Rc × List Bytes → Option DevReply
split_fields isok cmd tag (failure, flds) = none
split_fields isok cmd tag (success, flds) =
    some (record { isok = isok; cmd = cmd; tag = tag; flds = flds })

-- From the test for data behind the tag on.
pub extract_fields : Bool → Bytes → Bytes → Bytes → Option DevReply
extract_fields isok cmd tag p =
    if not (head p == 0) && not (head p == b'\r') && not (head p == b'\n')
    then split_fields isok cmd tag (xstrsplitfields (cstr (drop 1 p)) b',')
    else some (record { isok = isok; cmd = cmd; tag = tag; flds = [] })

-- Behind the loop over the tag.
pub after_tag : Bool → Bytes → Scan → Option DevReply
unfolding extract_fields
after_tag isok cmd t = if t.spent then none else extract_fields isok cmd t.taken t.rest

-- From the optional tag on.
pub extract_tag : Bool → Bytes → Bytes → Option DevReply
unfolding scan after_tag extract_fields
extract_tag isok cmd p =
    let tagged = after_tag isok cmd (scan ends_tag 7 (drop 1 p)) in
    let untagged = extract_fields isok cmd [] p in if head p == b'+' then tagged else untagged

-- Behind the loop over the command's name.
pub after_cmd : Bool → Scan → Option DevReply
unfolding extract_tag
after_cmd isok c =
    if c.spent
    then none
    else if head c.rest == b'+' && length (cstr c.taken) == 0
    then none
    else extract_tag isok c.taken c.rest

pub extract_cmd : Bool → Bytes → Option DevReply
unfolding scan after_cmd
extract_cmd isok p = after_cmd isok (scan ends_cmd 14 p)

-- 0 with the out parameters, or `none` for -1.
unfoldable pub extract_devcmd_reply : Bytes → Option DevReply
unfolding extract_cmd
extract_devcmd_reply raw =
    let p = drop 1 raw in
    if not (head raw == b'$')
    then none
    else if head p == b'O' && get_or p 1 0 == b'K' && get_or p 2 0 == b':'
    then extract_cmd true (drop 3 p)
    else if head p == b'E' && get_or p 1 0 == b'R' && get_or p 2 0 == b'R' && get_or p 3 0 == b':'
    then (if leb b'0' (get_or p 4 0) && leb (get_or p 4 0) b'9'
        then some (record { isok = false; cmd = []; tag = []; flds = (get_or p 4 0 ∷ []) ∷ [] })
        else extract_cmd false (drop 4 p))
    else none

-- `if (reply[strlen(reply) - 2] == '\r' && ...) reply[strlen(reply) - 2] = '\0'`. On fewer than two bytes
-- the source reads before the buffer, and the test is taken to fail.
pub cut_crnl : Bytes → Bytes
cut_crnl reply =
    if leb 2 (length reply)
      && get_or reply (length reply - 2) 0 == b'\r'
      && get_or reply (length reply - 1) 0 == b'\n'
    then take (length reply - 2) reply
    else reply

-- The reply, or `none` for -1.
unfoldable pub extract_devcmd_reply_first_field : Bytes → ℕ → Option Bytes
unfolding extract_devcmd_reply cut_crnl
extract_devcmd_reply_first_field raw maxreply = elim (extract_devcmd_reply raw) [
  | none ↦ none
  | some r ↦
      if not r.isok
      then none
      else elim r.flds [ [] ↦ some [] | f ∷ fs ↦ some (cut_crnl (xmb_strncpy f maxreply)) ]
]

-- `g7error_list`
pub g7error_list : List (ℕ × Bytes)
g7error_list =
    (0, codes "Unknown error")
    ∷ (1, codes "Incorrect password")
    ∷ (2, codes "Incorrect command parameters")
    ∷ (3, codes "GSM SMS base phone number or GPRS Server IP adress not set")
    ∷ (4, codes "Unable to detect GSM signal")
    ∷ (5, codes "GSM failed")
    ∷ (6, codes "Unable to establish the GPRS connection")
    ∷ (8, codes "Voice busy tone")
    ∷ (9, codes "Incorrect PIN code setting")
    ∷ []

pub find_error : List (ℕ × Bytes) → ℤ → Option Bytes
find_error es (negsuc n) = none
find_error [] (pos n) = none
find_error (e ∷ es) (pos n) = if e.0 == n then some e.1 else find_error es (pos n)

-- `none` stands for -1, with the text "Internal error: Device error code ... unknown!".
unfoldable pub device_strerr : ℤ → Option Bytes
unfolding find_error g7error_list
device_strerr errcode = find_error g7error_list errcode

-- What is written to the user's socket, one constructor for each format.
pub data Message : Type 0 where
  -- `"%s%s", DEVICE_REPLY_PROMPT, ...`
  prompted : Bytes → Message
  -- "[ERR] Incomplete reply from device \"%s\""
  incomplete : Bytes → Message
  -- "[ERR] Unexpected reply from device \"%s\""
  unexpected : Bytes → Message
  -- "[ERR] ( %d : %s )"
  device_error : ℤ → Option Bytes → Message
  -- `"%s", str`, of `cmdarg_to_text`
  translated : Bytes → Message
  -- "\n[ERR] Cannot parse device reply"
  cannot_parse : Message

-- `-(errcode + 1)`
abbrev pub error_code : ℤ → ℤ
error_code (pos n) = negsuc n
error_code (negsuc n) = pos n

abbrev pub resp_len : ℕ
resp_len = 128

-- `for (size_t i = 1; i < flds.nf; i++)`
pub append_fields : Bytes → List Bytes → Bytes
append_fields resp [] = resp
append_fields resp (f ∷ fs) =
    append_fields (xstrlcat (xstrlcat resp (codes ",") resp_len).0 f resp_len).0 fs

pub response : List Bytes → Bytes
unfolding append_fields
response [] = (xstrlcpy (codes "OK") resp_len).0
response (f ∷ fs) = append_fields (xstrlcpy f resp_len).0 fs

-- What `cmdarg_to_text` writes, and the message of `handle_device_reply` when it fails.
unfoldable pub translation : Bytes → List Bytes → List Message
translation cmdname flds =
    let t = cmdarg_to_text cmdname flds in
    translated t.1 ∷ (elim t.0 [ success ↦ [] | failure ↦ cannot_parse ∷ [] ])

-- The result and the messages, in their order. `translate` is `translateDeviceReply`, and `stale` what
-- the local `flds.fld[0]` holds at first, which is read for an error reply with no field.
unfoldable pub handle_device_reply : Bool → Bytes → Bytes → Bytes → ℤ × List Message
unfolding extract_devcmd_reply device_strerr response translation
handle_device_reply translate stale reply tagbuff =
    if not (head reply == b'$') && head reply == b'3' && ltb 60 (length (cstr reply))
    then (pos 0, prompted (cstr reply) ∷ [])
    else elim (extract_devcmd_reply reply) [
      | none ↦ (negsuc 0, incomplete (cstr reply) ∷ [])
      | some r ↦
          if not (str_eq (cstr r.tag) tagbuff)
          then (negsuc 0, unexpected (cstr reply) ∷ [])
          else if not r.isok
          then (let errcode = (xatoi (get_or r.flds 0 stale)).0 in
              (error_code errcode, device_error errcode (device_strerr errcode) ∷ []))
          else (
            pos 0,
            prompted (response r.flds)
                ∷ (if not (length r.flds == 0) && translate
                    then translation (cstr r.cmd) r.flds
                    else []),
          )
    ]
