-- ===== src/Broker/Audience.antt =====
-- The book of the broker of 02: who has asked for what, and who gets a message.
use eltex_modul.Common.{
  ℕ, suc, ◌≡◌, refl, ap, ◌∙◌, inl, inr, Bool, true, false, not, ◌&&◌, ◌||◌, List, [], ◌∷◌, ◌++◌,
  if◌then◌else◌, arith, Bool-cases,
}
use eltex_modul.Common.Int.{ℤ, ◌==ℤ◌, ==ℤ_refl, ==ℤ→eq}
use eltex_modul.Common.Text.{Bytes, str_eq, utf8}
use eltex_modul.Broker.Header.{Control, Parsed, no_newline, few_commas, crash, parsed}
use eltex_modul.Broker.Process.{Mallocs, topic_name}
use eltex_modul.Broker.Book.{
  Entry, Book, is_known, subscribe, wants, audience, dispatch, is_null, send, take_subscription,
}

-- Whether the subscriber `pid` has asked for the topic.
abbrev pub asks : ℤ → Bytes → List Entry → Bool
asks pid topic [] = false
asks pid topic (e ∷ es) = ((e.pid ==ℤ pid) && wants topic e.topics) || asks pid topic es

-- No pid in two entries.
abbrev pub Unique : List Entry → Type 0
Unique [] = Unit {0}
Unique (e ∷ es) = (is_known e.pid es ≡ false) × Unique es

-- The messages for `pid`, in order.
unfoldable pub mail : ℤ → List (ℤ × Bytes) → List Bytes
mail pid [] = []
mail pid ((p, text) ∷ ms) = if p ==ℤ pid then text ∷ mail pid ms else mail pid ms

asks-is_known :
    (pid : ℤ) (topic : Bytes) (es : List Entry)
    → is_known pid es ≡ false
    → asks pid topic es ≡ false
unfolding is_known
asks-is_known pid topic [] h = refl
asks-is_known pid topic (e ∷ es) h = ground (arith, asks-is_known pid topic es)

mail_step :
    (accepts : ℕ → Bool) (k : ℕ) (pid p : ℤ) (text : Bytes) (pids : List ℤ)
    → accepts k ≡ true
    → mail pid (dispatch accepts k text (p ∷ pids)).0 ≡ (
        if p ==ℤ pid
        then text ∷ mail pid (dispatch accepts (suc k) text pids).0
        else mail pid (dispatch accepts (suc k) text pids).0)
unfolding mail dispatch
mail_step accepts k pid p text pids e = rw e refl

nobody :
    (accepts : ℕ → Bool) (k : ℕ) (pid : ℤ) (text : Bytes)
    → mail pid (dispatch accepts k text []).0 ≡ []
unfolding mail dispatch
nobody accepts k pid text = refl

-- When the queue takes every message, each that has asked for the topic is sent it once, nobody else.
pub mail-audience :
    (accepts : ℕ → Bool) (k : ℕ) (pid : ℤ) (topic text : Bytes) (es : List Entry)
    → ((j : ℕ) → accepts j ≡ true)
    → Unique es
    → mail pid (dispatch accepts k text (audience topic es)).0
      ≡ (if asks pid topic es then text ∷ [] else [])
unfolding audience is_known
mail-audience accepts k pid topic text [] all u = nobody accepts k pid text
mail-audience accepts k pid topic text (e ∷ es) all u = elim (Bool-cases (wants topic e.topics)) [
  | inr f ↦ rw f (mail-audience accepts k pid topic text es all u.1 ∙ ground (arith, f))
  | inl f ↦ rw f (
      mail_step accepts k pid e.pid text (audience topic es) (all k)
      ∙ rw (mail-audience accepts (suc k) pid topic text es all u.1)
          (elim (Bool-cases (e.pid ==ℤ pid)) [
            | inl g ↦
                let same : e.pid ≡ pid = ==ℤ→eq e.pid pid g in
                let none_else : asks pid topic es ≡ false =
                  asks-is_known pid topic es (rw (← same) u.0) in
                rw (g, none_else) refl
            | inr g ↦ rw g refl
          ]))
]

wants-append :
    (topic t : Bytes) (ts : List Bytes)
    → wants topic (ts ++ t ∷ []) ≡ (str_eq t topic || wants topic ts)
unfolding wants
wants-append topic t [] = ground arith
wants-append topic t (u ∷ ts) = ground (arith, wants-append topic t ts)

-- A known subscriber gets the topic; nothing else changes.
asks-subscribe :
    (pid : ℤ) (topic : Bytes) (p : ℤ) (t : Bytes) (es : List Entry)
    → is_known p es ≡ true
    → asks pid topic (subscribe p t es) ≡ (((p ==ℤ pid) && str_eq t topic) || asks pid topic es)
unfolding subscribe is_known
asks-subscribe pid topic p t [] k = cc
asks-subscribe pid topic p t (e ∷ es) k = elim (Bool-cases (e.pid ==ℤ p)) [
  | inl g ↦
      let same : e.pid ≡ p = ==ℤ→eq e.pid p g in
      rw g (ground (arith, wants-append topic t e.topics, ap (λ q. q ==ℤ pid) same))
  | inr g ↦ rw g (ground (arith, g, asks-subscribe pid topic p t es))
]

is_known-subscribe :
    (q p : ℤ) (t : Bytes) (es : List Entry) → is_known q (subscribe p t es) ≡ is_known q es
unfolding subscribe is_known
is_known-subscribe q p t [] = refl
is_known-subscribe q p t (e ∷ es) = ground (arith, is_known-subscribe q p t es)

Unique-subscribe : (p : ℤ) (t : Bytes) (es : List Entry) → Unique es → Unique (subscribe p t es)
unfolding subscribe
Unique-subscribe p t [] u = tt
Unique-subscribe p t (e ∷ es) u = elim (Bool-cases (e.pid ==ℤ p)) [
  | inl g ↦ rw g (u.0, u.1)
  | inr g ↦ rw g (is_known-subscribe e.pid p t es ∙ u.0, Unique-subscribe p t es u.1)
]

abbrev pub beginner : ℤ → Entry
beginner p = record { pid = p; topics = [] }

asks-snoc :
    (pid : ℤ) (topic : Bytes) (p : ℤ) (es : List Entry)
    → asks pid topic (es ++ beginner p ∷ []) ≡ asks pid topic es
unfolding wants
asks-snoc pid topic p [] = ground arith
asks-snoc pid topic p (e ∷ es) = ground (arith, asks-snoc pid topic p es)

is_known-snoc :
    (q p : ℤ) (es : List Entry) → is_known q (es ++ beginner p ∷ []) ≡ (is_known q es || (p ==ℤ q))
unfolding is_known
is_known-snoc q p [] = ground arith
is_known-snoc q p (e ∷ es) = ground (arith, is_known-snoc q p es)

Unique-snoc :
    (p : ℤ) (es : List Entry) → is_known p es ≡ false → Unique es → Unique (es ++ beginner p ∷ [])
unfolding is_known
Unique-snoc p [] k u = (refl, tt)
Unique-snoc p (e ∷ es) k u = (
  ground (arith, k, u.0, is_known-snoc e.pid p es, ==ℤ→eq p e.pid, ==ℤ_refl e.pid),
  Unique-snoc p es (ground (arith, k)) u.1,
)

-- The malloc calls of a message succeed.
pub record Memory (m : Mallocs) : Type 0 where
  pub for_publisher : is_null m.for_publisher ≡ false
  pub for_subscriber : is_null m.for_subscriber ≡ false
  pub for_topic : is_null m.for_topic ≡ false

-- Whether a message is a subscription of `pid` for the topic.
abbrev pub subscribes : ℤ → Bytes → Parsed → Bool
subscribes pid topic no_newline = false
subscribes pid topic few_commas = false
subscribes pid topic crash = false
subscribes pid topic (parsed c) =
    not (str_eq c.command (utf8 "send"))
    && (str_eq c.command (utf8 "subscribe")
        && ((c.sender_pid ==ℤ pid) && str_eq (topic_name c.topic) topic))

-- What a message does to who asks for what.
pub record Kept (pid : ℤ) (topic : Bytes) (new : Bool) (es fs : List Entry) : Type 0 where
  pub asks_now : asks pid topic fs ≡ (new || asks pid topic es)
  pub unique : Unique fs

pub subscription-Kept :
    (pid : ℤ) (topic : Bytes) (c : Control) (b : Book)
    → Unique b.subscribers
    → Kept pid topic
        ((c.sender_pid ==ℤ pid) && str_eq (topic_name c.topic) topic)
        b.subscribers
        (take_subscription false false c b).book.subscribers
unfolding take_subscription
subscription-Kept pid topic c b u = elim (Bool-cases (is_known c.sender_pid b.subscribers)) [
  | inl k ↦ rw k (record {
    asks_now = asks-subscribe pid topic c.sender_pid (topic_name c.topic) b.subscribers k;
    unique = Unique-subscribe c.sender_pid (topic_name c.topic) b.subscribers u;
  })
  | inr k ↦
      let es = b.subscribers ++ beginner c.sender_pid ∷ [] in
      let known : is_known c.sender_pid es ≡ true =
        is_known-snoc c.sender_pid c.sender_pid b.subscribers
        ∙ ground (arith, ==ℤ_refl c.sender_pid) in
      rw k (record {
        asks_now =
            asks-subscribe pid topic c.sender_pid (topic_name c.topic) es known
            ∙ rw (asks-snoc pid topic c.sender_pid b.subscribers) refl;
        unique =
            Unique-subscribe c.sender_pid (topic_name c.topic) es
              (Unique-snoc c.sender_pid b.subscribers k u);
      })
]

pub send-subscribers :
    (failed : Bool) (accepts : ℕ → Bool) (text : Bytes) (c : Control) (b : Book)
    → (send failed accepts text c b).book.subscribers ≡ b.subscribers
unfolding send
send-subscribers failed accepts text c b = ground arith
