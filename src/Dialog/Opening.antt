-- ===== src/Dialog/Opening.antt =====
-- main of 03/main.c: the names of the two queues, which user a process is, and what is removed.
--
-- A start runs up to the threads, with no other start in between. `fails` tells by its number which call
-- of mq_open fails for another reason than that the queue is there or is missing. The threads are
-- created without an error.
use eltex_modul.Common.{
  ℕ, zero, suc, Bool, true, false, not, ◌||◌, List, [], ◌∷◌, ◌++◌, if◌then◌else◌, ltb, length,
}
use eltex_modul.Common.Text.{Bytes, utf8}
use eltex_modul.Common.Names.{has_name, without}
use eltex_modul.Dialog.{buffer_size, max_msg_count}

pub record MqAttr : Type 0 where
  pub mq_maxmsg : ℕ
  pub mq_msgsize : ℕ
  pub mq_flags : ℕ

abbrev pub init_queue_attr : MqAttr
init_queue_attr = record { mq_maxmsg = max_msg_count; mq_msgsize = 256; mq_flags = 0 }

-- The queues that there are, as the kernel names them.
pub record Queue : Type 0 where
  pub name : Bytes
  pub attr : MqAttr

abbrev pub mq_name : Bytes → Bytes → Bytes
mq_name arg tail = utf8 "/" ++ (arg ++ tail)

abbrev pub mq_name_1 : Bytes → Bytes
mq_name_1 arg = mq_name arg (utf8 "_1")

abbrev pub mq_name_2 : Bytes → Bytes
mq_name_2 arg = mq_name arg (utf8 "_2")

abbrev pub exists : Bytes → List Queue → Bool
exists name qs = has_name (λ q. q.name) name qs

abbrev pub mq_unlink : Bytes → List Queue → List Queue
mq_unlink name qs = without (λ q. q.name) name qs

abbrev pub created : Bytes → Queue
created name = record { name = name; attr = init_queue_attr }

-- What a process holds behind the opening.
pub record Ends : Type 0 where
  pub reads : Bytes
  pub writes : Bytes
  pub is_second_user : Bool

-- No argument; a name that does not fit its array; exit; or the threads are started.
pub data Started : Type 0 where
  no_name : Started
  overrun : Started
  quit : List Queue → Started
  talking : Ends → List Queue → Started

unfoldable pub second_user : (ℕ → Bool) → List Queue → Bytes → Bytes → Started
second_user fails qs one two =
    if not (exists one qs) || fails 1
    then quit (mq_unlink one qs)
    else if not (exists two qs) || fails 2
    then quit (mq_unlink two qs)
    else talking (record { reads = two; writes = one; is_second_user = true }) qs

unfoldable pub first_user : (ℕ → Bool) → List Queue → Bytes → Bytes → Started
first_user fails qs one two =
    if exists two qs || fails 1
    then quit (mq_unlink two qs)
    else talking (record { reads = one; writes = two; is_second_user = false }) (created two ∷ qs)

-- Whatever the reason why the first queue is not created: the process is then the second user.
unfoldable pub open_queues : (ℕ → Bool) → List Queue → Bytes → Bytes → Started
unfolding first_user second_user
open_queues fails qs one two =
    if exists one qs || fails 0
    then second_user fails qs one two
    else first_user fails (created one ∷ qs) one two

-- The arguments are those behind the name of the program.
unfoldable pub begin : (ℕ → Bool) → List Queue → List Bytes → Started
unfolding open_queues
begin fails qs [] = no_name
begin fails qs (arg ∷ more) =
    if ltb (length (mq_name_1 arg)) buffer_size
    then open_queues fails qs (mq_name_1 arg) (mq_name_2 arg)
    else overrun

-- Behind the threads: only the first user removes the queues.
unfoldable pub finish : Bytes → Ends → List Queue → List Queue
finish arg e qs =
    if e.is_second_user then qs else mq_unlink (mq_name_2 arg) (mq_unlink (mq_name_1 arg) qs)

abbrev pub left_by : Started → List Queue → List Queue
left_by no_name qs = qs
left_by overrun qs = qs
left_by (quit qs') qs = qs'
left_by (talking e qs') qs = qs'

-- The last of `n` more starts after a first one, when no call fails for another reason.
unfoldable pub begin_again : ℕ → List Queue → List Bytes → Started
begin_again zero qs args = begin (λ i. false) qs args
begin_again (suc n) qs args = begin_again n (left_by (begin (λ i. false) qs args) qs) args
