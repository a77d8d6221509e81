-- ===== src/Dialog/Crossing.antt =====
-- The queues of two users of 03/main.c who start one after the other.
use eltex_modul.Common.{
  ℕ, zero, suc, ◌<◌, ◌≡◌, refl, ap, ◌∙◌, Bool, true, false, List, ◌∷◌, ◌++◌, ltb, length, arith,
}
use eltex_modul.Common.Text.{Bytes, utf8, str_eq}
use eltex_modul.Common.Names.{has_name, without-missing, without-both, str_eq_self, str_eq-append}
use eltex_modul.Dialog.{buffer_size}
use eltex_modul.Dialog.Opening.{
  Queue, mq_name_1, mq_name_2, exists, mq_unlink, created, Ends, quit, talking, second_user,
  first_user, open_queues, begin, finish, left_by, begin_again,
}

names_differ : (arg : Bytes) → str_eq (mq_name_1 arg) (mq_name_2 arg) ≡ false
names_differ arg = str_eq-append (utf8 "/" ++ arg) (utf8 "_1") (utf8 "_2")

names_differ_back : (arg : Bytes) → str_eq (mq_name_2 arg) (mq_name_1 arg) ≡ false
names_differ_back arg = str_eq-append (utf8 "/" ++ arg) (utf8 "_2") (utf8 "_1")

module _ (arg : Bytes) (more : List Bytes) (qs : List Queue)
    (room : length (mq_name_1 arg) < buffer_size) (no_first : exists (mq_name_1 arg) qs ≡ false)
    (no_second : exists (mq_name_2 arg) qs ≡ false) where
  fits : ltb (length (mq_name_1 arg)) buffer_size ≡ true
  fits = ground (arith, room)

  -- Of the two names the first is there and the second is not.
  half : exists (mq_name_1 arg) (created (mq_name_1 arg) ∷ qs) ≡ true
  unfolding has_name
  half = ground (arith, str_eq_self (mq_name_1 arg))

  still_no_second : exists (mq_name_2 arg) (created (mq_name_1 arg) ∷ qs) ≡ false
  unfolding has_name
  still_no_second = ground (arith, names_differ arg, no_second)

  first_starts :
      begin (λ i. false) qs (arg ∷ more)
      ≡ talking
          (record { reads = mq_name_1 arg; writes = mq_name_2 arg; is_second_user = false })
          (created (mq_name_2 arg) ∷ created (mq_name_1 arg) ∷ qs)
  unfolding begin open_queues first_user
  first_starts = rw (fits, no_first, still_no_second) refl

  both_first :
      exists (mq_name_1 arg) (created (mq_name_2 arg) ∷ created (mq_name_1 arg) ∷ qs) ≡ true
  unfolding has_name
  both_first = ground (arith, str_eq_self (mq_name_1 arg))

  both_second :
      exists (mq_name_2 arg) (created (mq_name_2 arg) ∷ created (mq_name_1 arg) ∷ qs) ≡ true
  unfolding has_name
  both_second = ground (arith, str_eq_self (mq_name_2 arg))

  second_starts :
      begin (λ i. false) (created (mq_name_2 arg) ∷ created (mq_name_1 arg) ∷ qs) (arg ∷ more)
      ≡ talking
          (record { reads = mq_name_2 arg; writes = mq_name_1 arg; is_second_user = true })
          (created (mq_name_2 arg) ∷ created (mq_name_1 arg) ∷ qs)
  unfolding begin open_queues second_user
  second_starts = rw (fits, both_first, both_second) refl

  unlinked :
      mq_unlink
        (mq_name_2 arg)
        (mq_unlink (mq_name_1 arg) (created (mq_name_2 arg) ∷ created (mq_name_1 arg) ∷ qs))
      ≡ qs
  unlinked =
      without-both (λ q. q.name) (created (mq_name_1 arg)) (created (mq_name_2 arg)) qs
        (names_differ arg) (names_differ_back arg) no_first no_second

  -- When the name fits its array, neither queue is there and no call fails: the first start creates both
  -- queues; the second start finds them, and reads from the queue to which the first user writes, and
  -- writes to the one from which the first user reads; the end of the second user removes nothing,
  -- and that of the first user leaves the queues that there were before.
  pub begin-crossed :
      (first second : Ends) × (both : List Queue) × (begin (λ i. false) qs (arg ∷ more)
        ≡ talking first both)
      × (begin (λ i. false) both (arg ∷ more) ≡ talking second both)
      × (second.reads ≡ first.writes)
      × (second.writes ≡ first.reads)
      × (str_eq first.reads first.writes ≡ false)
      × (finish arg second both ≡ both)
      × (finish arg first both ≡ qs)
  unfolding finish
  begin-crossed = (
    record { reads = mq_name_1 arg; writes = mq_name_2 arg; is_second_user = false },
    record { reads = mq_name_2 arg; writes = mq_name_1 arg; is_second_user = true },
    created (mq_name_2 arg) ∷ created (mq_name_1 arg) ∷ qs,
    first_starts,
    second_starts,
    refl,
    refl,
    names_differ arg,
    refl,
    unlinked,
  )

  half_starts :
      begin (λ i. false) (created (mq_name_1 arg) ∷ qs) (arg ∷ more)
      ≡ quit (created (mq_name_1 arg) ∷ qs)
  unfolding begin open_queues second_user
  half_starts =
      rw
        (
          fits,
          half,
          still_no_second,
          without-missing (λ q. q.name) (mq_name_2 arg) (created (mq_name_1 arg) ∷ qs)
              still_no_second,
        )
        refl

  half_again :
      (n : ℕ)
      → begin_again n (created (mq_name_1 arg) ∷ qs) (arg ∷ more)
        ≡ quit (created (mq_name_1 arg) ∷ qs)
  unfolding begin_again
  half_again zero = half_starts
  half_again (suc n) =
      ap (λ s. begin_again n (left_by s (created (mq_name_1 arg) ∷ qs)) (arg ∷ more)) half_starts
      ∙ half_again n

  -- When the name fits its array, neither queue is there, and only the call that creates the second queue
  -- fails: then the process leaves the first queue behind, and although no call fails for such a reason
  -- from then on, every later start with this name exits and leaves it there as well.
  pub begin-left_behind :
      (fails : ℕ → Bool)
      → fails 0 ≡ false
      → fails 1 ≡ true
      → (begin fails qs (arg ∷ more) ≡ quit (created (mq_name_1 arg) ∷ qs))
        × ((n : ℕ)
            → begin_again n (created (mq_name_1 arg) ∷ qs) (arg ∷ more)
              ≡ quit (created (mq_name_1 arg) ∷ qs))
  unfolding begin open_queues first_user
  begin-left_behind fails works breaks = (
    rw
        (
          fits,
          no_first,
          works,
          still_no_second,
          breaks,
          without-missing (λ q. q.name) (mq_name_2 arg) (created (mq_name_1 arg) ∷ qs)
              still_no_second,
        )
        refl,
    half_again,
  )
