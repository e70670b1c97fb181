-- ===== src/Tests/Text.antt =====
-- Runs of the string functions of src/libxstr/xstr.c, src/utils.c and src/libsmtpmail/base64ed.c.
use g7ctrl.Codec.Quoted.{qprint_encode}
use g7ctrl.Codec.Quoted.Breaks.{unbroken, unquoted}
use g7ctrl.Codec.Quoted.RoundTrip.{qprint_encode_decodes}
use g7ctrl.Codec.QuotedWord.{qprint_encode_word, blank, qprint_encode_word_overrun}
use g7ctrl.Common.{
  All, Bytes, List, [], arith, codes, length, refl, some, success, ◌+◌, ◌<◌, ◌∷◌, ◌≡◌, ◌≤◌,
}
use g7ctrl.Xstr.Split.{xstrsplitfields}
use g7ctrl.Xstr.Split.Sound.{xstrsplitfields_sound}
use g7ctrl.Xstr.Split.RoundTrip.{join, Lacks, xstrsplitfields-join}
use g7ctrl.Codec.Url.{url_encode, url_decode, url_decode_buff}
use g7ctrl.Codec.Url.RoundTrip.{url_decode-url_encode}
use g7ctrl.Codec.Base64.{base64encode, base64decode, decoded}
use g7ctrl.Codec.Base64.RoundTrip.{base64decode-base64encode, base64encode_overrun}

abbrev batt : Bytes
batt = codes "GM7,1"

abbrev fields : List Bytes
fields = codes "12" ∷ [] ∷ codes "7" ∷ []

xstrsplitfields-join_example : xstrsplitfields (codes "12,,7") b',' ≡ (success, fields)
xstrsplitfields-join_example =
    xstrsplitfields-join fields b','
      (
        (((λ e. omega arith), ((λ e. omega arith), tt)), omega arith),
        ((tt, omega arith), ((((λ e. omega arith), tt), omega arith), tt)),
      )
      (omega arith) (omega arith) (omega arith)

split_run : xstrsplitfields (codes "12,,7") b',' ≡ (success, fields)
unfolding xstrsplitfields
split_run = refl

xstrsplitfields_sound_example :
    (join b',' fields ≡ codes "12,,7")
    × All (λ f. Lacks b',' f × (length f < 256)) fields
    × (length fields ≤ 64)
xstrsplitfields_sound_example = xstrsplitfields_sound (codes "12,,7") b',' fields split_run

url_decode-url_encode_example : url_decode (url_encode (codes "a b/c")) ≡ codes "a b/c"
url_decode-url_encode_example =
    url_decode-url_encode (codes "a b/c")
      (omega arith, (omega arith, (omega arith, (omega arith, (omega arith, tt)))))

decode_run : url_decode_buff 8 (codes "a+b") ≡ (success, codes "a b")
unfolding url_decode_buff
decode_run = refl

encode_run : base64encode (codes "Man!") 9 ≡ some (codes "TWFuIQ==")
unfolding base64encode
encode_run = refl

base64decode-base64encode_example : base64decode (codes "TWFuIQ==") 7 ≡ decoded (codes "Man!")
base64decode-base64encode_example =
    base64decode-base64encode b'M' (codes "an!") 9 7 (codes "TWFuIQ==")
      (omega arith, (omega arith, (omega arith, (omega arith, tt)))) (omega arith) encode_run
      (omega arith)

base64encode_overrun_example :
    (out : Bytes) × (base64encode (codes "Man!") 8 ≡ some out) × (length out ≡ 8)
base64encode_overrun_example = base64encode_overrun (codes "Man!") (omega arith) (λ e. omega arith)

qprint_encode_decodes_example :
    (out : Bytes) × (qprint_encode (97 ∷ 61 ∷ 195 ∷ 169 ∷ []) 100 ≡ some out)
    × (unquoted 0 (unbroken 0 out) ≡ 97 ∷ 61 ∷ 195 ∷ 169 ∷ [])
qprint_encode_decodes_example =
    qprint_encode_decodes (97 ∷ 61 ∷ 195 ∷ 169 ∷ []) 100 (omega arith) (omega arith) (omega arith)

qprint_encode_word_overrun_example :
    (out : Bytes) × (qprint_encode_word (blank 10) 13 ≡ some out) × (length out + 1 ≡ 22)
qprint_encode_word_overrun_example = qprint_encode_word_overrun 9 13 (omega arith) (omega arith)
