-- ===== src/Broker/Publishing.antt =====
-- The command "send" of broker_process in 02/src/broker.c, and what a run and an answer have in common.
use eltex_modul.Common.{
  ℕ, suc, ◌≡◌, ◌≢◌, refl, ap, ◌∙◌, inl, inr, Bool, none, some, List, [], ◌∷◌, ◌++◌, ◌==◌, arith,
  Bool-cases,
}
use eltex_modul.Common.Int.{ℤ, negsuc}
use eltex_modul.Common.Text.{Bytes}
use eltex_modul.Broker.Memory.{Run, ok, ◌>>=◌, Ptr, null}
use eltex_modul.Broker.Chain.{Cells, values, values-append}
use eltex_modul.Broker.Header.{Control}
use eltex_modul.Broker.Process.{World, Outcome, outcome, with_publisher, send_to_all, send_loop}
use eltex_modul.Broker.Book.{
  Book, View, entries, Holds, book_of, Answer, is_null, is_publisher, published, send,
}
use eltex_modul.Broker.Sending.{send_loop-dispatch}
use eltex_modul.Broker.Joining.{Free, with_publisher-known, with_publisher-none, with_publisher-new}

-- A run ends well with the messages and the result of the answer, in a state whose lists hold its book.
pub record Refined (r : Run Outcome) (a : Answer) : Type 0 where
  pub world : World
  pub views : List View
  pub pubs : Cells ℤ
  pub run : r ≡ ok (outcome world a.sent a.result)
  pub holds : Holds world views pubs
  pub book : book_of views pubs ≡ a.book

publish-Refined :
    (old w : World) (vs : List View) (ps : Cells ℤ) (accepts : ℕ → Bool) (c : Control)
    (text : Bytes) (b : Book)
    → Holds w vs ps
    → book_of vs ps ≡ b
    → Refined (send_to_all accepts c text old (some w)) (published accepts c.topic text b)
unfolding send_to_all
publish-Refined old w vs ps accepts c text b h e = rw (← e) (record {
  world = w;
  views = vs;
  pubs = ps;
  run =
      let walk =
        ap (λ q. send_loop (suc w.heap.nodes) w.heap accepts 0 c.topic text q.head) h.sub_list
        ∙ send_loop-dispatch (suc w.heap.nodes) w.heap accepts 0 c.topic text vs h.subs h.topics
            h.topic_count (omega (arith, h.sub_count)) in
      rw walk refl;
  holds = h;
  book = refl;
})

send_to_all-none :
    (accepts : ℕ → Bool) (c : Control) (text : Bytes) (w : World)
    → send_to_all accepts c text w none ≡ ok (outcome w [] (some (negsuc 4)))
unfolding send_to_all
send_to_all-none accepts c text w = refl

pub send-Refined :
    (w : World) (vs : List View) (ps : Cells ℤ) (p : Ptr) (accepts : ℕ → Bool) (text : Bytes)
    (c : Control)
    → Holds w vs ps
    → Free w.heap.pubs p
    → Refined
        (with_publisher w p c.sender_pid >>= send_to_all accepts c text w)
        (send (is_null p) accepts text c (book_of vs ps))
unfolding send
send-Refined w vs ps p accepts text c h free =
    elim (Bool-cases (is_publisher c.sender_pid (values ps))) [
      | inl known ↦
          rw (with_publisher-known w vs ps h c.sender_pid p known, known)
            (publish-Refined w w vs ps accepts c text (book_of vs ps) h refl)
      | inr new ↦ elim (Bool-cases (p == null)) [
        | inl e ↦
            rw (with_publisher-none w vs ps h c.sender_pid p new e, new, e)
              (record {
                world = w;
                views = vs;
                pubs = ps;
                run = send_to_all-none accepts c text w;
                holds = h;
                book = refl;
              })
        | inr e ↦
            let ne : p ≢ null = ground (arith, e) in
            let (w', f, h') = with_publisher-new w vs ps h c.sender_pid p new ne (free ne) in
            rw (f, new, e)
              (publish-Refined w w' vs (ps ++ (p, c.sender_pid) ∷ []) accepts c text
                (record { subscribers = entries vs; publishers = values ps ++ c.sender_pid ∷ [] })
                h'
                (ap (λ qs. record { subscribers = entries vs; publishers = qs })
                  (values-append ps ((p, c.sender_pid) ∷ []))))
      ]
    ]
