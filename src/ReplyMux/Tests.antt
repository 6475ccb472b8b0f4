-- ===== src/ReplyMux/Tests.antt =====
-- The theorems on the reply mux at concrete runs.
use module_nats.Common.{
  ℕ, suc, ◌+◌, ◌*◌, pos, ◌≡◌, refl, false, Option, none, some, List, [], ◌∷◌, ◌++◌, arith, ◌==◌,
  leb, if◌then◌else◌, count,
}
use module_nats.ReplyMux.SlotMap.{find, put, erase, stored}
use module_nats.ReplyMux.Decimal.{to_string}
use module_nats.ReplyMux.{reply_handler, register, destroy_mux}
use module_nats.ReplyMux.System.Progress.{stop, more, starts, Run-taken}
use module_nats.ReplyMux.System.{
  System, started, Step, Reach, created, later, initial, taken, delivered_to, finished,
}
use module_nats.ReplyMux.System
use module_nats.ReplyMux.System.Replies.{taken-SentTo}
use module_nats.ReplyMux.System.Freed.{Reach-Freed, destroy_mux-Reach}
use module_nats.ReplyMux.Wait.{Clock, Timely, Sound, Outcome, wait_for_reply, wait_for_reply-Sound}

-- The prefix is "p."; message 9 is sent to "p.1", any other to "q".
abbrev inbox : List ℕ
inbox = 112 ∷ 46 ∷ []

abbrev subject : ℕ → Option (List ℕ)
subject m = if m == 9 then some (inbox ++ to_string 1) else some (113 ∷ [])

abbrev token : List ℕ
token = to_string 1

-- A request is sent, another message and its reply arrive, it takes the reply and returns.
abbrev waiting : System
waiting = delivered_to (subject 9) 9 (delivered_to (subject 5) 5 (started (initial inbox)))

abbrev has_reply : System
has_reply = taken token 9 waiting

abbrev at_rest : System
at_rest = finished token (some 9) has_reply

new_request : find token waiting.requests ≡ some none
unfolding put find to_string
new_request = refl

reply_there : find token waiting.mux.replies ≡ some (some 9)
unfolding put find to_string reply_handler register
reply_there = refl

reply_taken : find token has_reply.requests ≡ some (some 9)
unfolding put find to_string
reply_taken = refl

has_reply-Reach : Reach subject inbox has_reply
has_reply-Reach =
    later (later (later (later created System.start) (System.deliver 5)) (System.deliver 9))
      (System.take token 9 new_request reply_there)

taken-SentTo_example : subject 9 ≡ some (inbox ++ token)
taken-SentTo_example = taken-SentTo subject inbox token 9 has_reply-Reach reply_taken

all_returned : at_rest.requests ≡ []
unfolding put erase to_string
all_returned = refl

Reach-Freed_example :
    (at_rest.mux.replies ≡ [])
    × ((m : ℕ) → count m at_rest.mux.destroyed ≡ count m at_rest.delivered)
Reach-Freed_example =
    Reach-Freed subject inbox (later has_reply-Reach (System.finish token (some 9) reply_taken))
      all_returned

destroy_mux-Reach_example :
    count 9 (destroy_mux has_reply.mux).destroyed + stored 9 has_reply.requests
    ≡ count 9 has_reply.delivered
destroy_mux-Reach_example = destroy_mux-Reach subject inbox 9 has_reply-Reach

-- The state is the time; message 9 is in the slot from 7 milliseconds on. A wait is a nanosecond late.
abbrev clock : Clock ℕ
clock = record {
  now = λ x. x;
  slot = λ x. if leb 7000000 x then some 9 else none;
  clear = λ x. x;
  wait = λ ms x. (false, suc (x + ms * 1000000));
}

clock-Timely : Timely clock 1
unfolding Timely
clock-Timely ms x = (omega arith, omega arith)

wait_for_reply-Sound_example :
    (v : Outcome × ℕ) × (wait_for_reply clock (pos 5) 0 ≡ some v) × Sound clock 5000000 1 v
wait_for_reply-Sound_example = wait_for_reply-Sound clock 1 (pos 5) 0 clock-Timely (omega arith)

abbrev asked : System
asked = delivered_to (subject 5) 5 (started (initial inbox))

asked_waits : find token asked.requests ≡ some none
unfolding put find to_string
asked_waits = refl

its_subject : subject 9 ≡ some (inbox ++ token)
its_subject = refl

-- Another request starts behind the reply.
Run-taken_example :
    (k : ℕ) × Step subject
      (started (delivered_to (subject 9) 9 asked))
      (taken token k (started (delivered_to (subject 9) 9 asked)))
Run-taken_example =
    Run-taken subject token inbox 9 (later (later created System.start) (System.deliver 5))
      asked_waits its_subject (more stop starts)
