-- ===== src/DevCmd/Dialog/Numbers.antt =====
-- The question for a number in the dialog for arguments, of src/g7cmd.c, after a slip.
use g7ctrl.Common.{
  All, Bool, List, [], ap, at_end, false, if◌then◌else◌, refl, true, ◌&&◌, ◌∙◌, ◌∷◌, ◌≡◌,
}
use g7ctrl.DevCmd.Arg.{ArgType, Arg}
use g7ctrl.DevCmd.Dialog.{
  Input, Asked, get_arg, is_dot, is_negative, is_numeric, ask_int, ask_type, ask_arg,
}

-- The user sends a text that `get_arg` takes, so at most 64 bytes when trimmed, and that is neither
-- empty nor with a dot in front, which end the question.
abbrev pub Replied : Input → Type 0
Replied i =
    (is_negative (get_arg 64 i).0 ≡ false)
    × (at_end (get_arg 64 i).1 ≡ false)
    × (is_dot (get_arg 64 i).1 ≡ false)

ask_int-Replied :
    (isdigit : Bool) (i : Input) (is : List Input)
    → Replied i
    → ask_int isdigit (i ∷ is) ≡ (
        if isdigit && is_numeric (get_arg 64 i).1
        then Asked.answer (get_arg 64 i).1 is
        else ask_int false is)
unfolding ask_int
ask_int-Replied isdigit i is h = rw (ask_int, h.0, h.1, h.2) refl

ask_int_stuck : (is : List Input) → All Replied is → ask_int false is ≡ Asked.waits
unfolding ask_int
ask_int_stuck [] h = refl
ask_int_stuck (i ∷ is) h = ask_int-Replied false i is h.0 ∙ ask_int_stuck is h.1

-- All replies are texts of at most 64 bytes when trimmed, not empty and without a dot in front. Then a
-- number is taken as the first reply to the question for a number, and if the first reply is something
-- else, the question still waits after any further ones, numbers too.
pub mistyped_number :
    (a : Arg) (i : Input) (is : List Input)
    → a.type ≡ ArgType.int
    → Replied i
    → All Replied is
    → ask_arg a (i ∷ is)
      ≡ (if is_numeric (get_arg 64 i).1 then Asked.answer (get_arg 64 i).1 is else Asked.waits)
unfolding ask_arg ask_type
mistyped_number a i is t h hs =
    ap (λ t. ask_type t a (i ∷ is)) t
    ∙ ask_int-Replied true i is h
    ∙ ap
        (λ (w : Asked).
          let r : Asked =
            if is_numeric (get_arg 64 i).1 then Asked.answer (get_arg 64 i).1 is else w in
          r)
        (ask_int_stuck is hs)
