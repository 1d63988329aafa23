-- ===== src/Topside/System/Calls/Handled.antt =====
-- What the hub's handling of a message leaves of a phone's connection.
use aqualung.Common.{ℕ, ◌≢◌, refl, Option, List, ◌∷◌, nat_eq, ==_iff, arith, Bool-cases}
use aqualung.Json.{Json}
use aqualung.Hub.Loads.{next_id}
use aqualung.Hub.State.{Hub}
use aqualung.Hub.Run.{
  ToHub, accepted, home_frame, home_eof, phone_hello, phone_text, phone_eof, shutdown_hub, handle,
  wake,
}
use aqualung.Hub.FromPhone.{on_phone_hello}
use aqualung.Hub.Watching.{on_phone_eof}
use aqualung.Hub.Callers.{closed_at}
use aqualung.Hub.Callers.Handling.{
  Plain, handle-Steady, wake-Steady, on_phone_hello-channel, on_phone_eof-channel,
}
use aqualung.Topside.System.{PhoneTask}
use aqualung.Topside.System.Calls.{Paired, ended_number, Call, steady}

module _ ⦃J : Json⦄ {Request : Type 0} (i : ℕ) (task : PhoneTask Request) where
  Call-Plain :
      (now : ℕ) (m : ToHub) (rest : List ToHub) (h : Hub)
      → Plain m
      → Call i h (m ∷ rest) task
      → Call i (handle now m h) rest task
  Call-Plain now (accepted a b c) rest h plain k =
      steady i task h _ _ rest (λ q. handle-Steady i q now (accepted a b c) h plain) (omega arith)
        (λ q. omega arith) k
  Call-Plain now (home_frame gen msg) rest h plain k =
      steady i task h _ _ rest (λ q. handle-Steady i q now (home_frame gen msg) h plain)
        (omega arith) (λ q. omega arith) k
  Call-Plain now (home_eof gen) rest h plain k =
      steady i task h _ _ rest (λ q. handle-Steady i q now (home_eof gen) h plain) (omega arith)
        (λ q. omega arith) k
  Call-Plain now (phone_hello out bind) rest h plain k = elim plain [ ]
  Call-Plain now (phone_text phone text) rest h plain k =
      steady i task h _ _ rest (λ q. handle-Steady i q now (phone_text phone text) h plain)
        (omega arith) (λ q. omega arith) k
  Call-Plain now (phone_eof phone) rest h plain k = elim plain [ ]
  Call-Plain now shutdown_hub rest h plain k = elim plain [ ]

  Call-hello :
      (out : ℕ) (rest : List ToHub) (h : Hub)
      → Call i h (phone_hello out out ∷ rest) task
      → Call i (on_phone_hello out out h) rest task
  Call-hello out rest h k = record {
    once = ground (arith, k.once, (on_phone_hello-channel i 0 out out h).1);
    own = λ q e. ground (
      arith,
      k.own q,
      k.once,
      on_phone_hello-channel i q out out h,
      ==_iff out i,
      ==_iff (next_id h.next_phone) q,
    );
    number = λ p e. ground (arith, k.number p, k.once, (on_phone_hello-channel i 0 out out h).1);
    still_open = λ q e. ground (
      arith,
      k.still_open q,
      k.unclosed,
      k.once,
      on_phone_hello-channel i q out out h,
      ==_iff out i,
    );
    unclosed = λ e. ground (arith, k.unclosed, on_phone_hello-channel i 0 out out h);
    left = λ over q e.
        (let (p, named) = ended_number task over in
          ground (
            arith,
            k.left over q,
            k.number p named,
            k.once,
            on_phone_hello-channel i q out out h,
            ==_iff out i,
          ));
  }

  Call-eof :
      (phone : ℕ) (rest : List ToHub) (h : Hub)
      → Call i h (phone_eof phone ∷ rest) task
      → Call i (on_phone_eof phone h) rest task
  Call-eof phone rest h k = record {
    once = ground (arith, k.once, on_phone_eof-channel i 0 phone h);
    own = λ q e. ground (arith, k.own q, on_phone_eof-channel i q phone h);
    number = λ p e. ground (arith, k.number p, on_phone_eof-channel i 0 phone h);
    still_open = λ q e. ground (
      arith,
      k.still_open q,
      k.own q,
      k.own phone,
      on_phone_eof-channel i q phone h,
      ==_iff phone q,
      Bool-cases (closed_at i (on_phone_eof phone h).sent),
    );
    unclosed = λ e. ground (
      arith,
      k.unclosed,
      k.own phone,
      on_phone_eof-channel i 0 phone h,
      Bool-cases (closed_at i (on_phone_eof phone h).sent),
    );
    left =
        λ over q e. ground (arith, k.left over q, on_phone_eof-channel i q phone h, ==_iff phone q);
  }

  -- Any message but the shutdown.
  pub Call-handle :
      (now : ℕ) (m : ToHub) (rest : List ToHub) (h : Hub)
      → m ≢ shutdown_hub
      → Paired m
      → Call i h (m ∷ rest) task
      → Call i (handle now m h) rest task
  unfolding handle
  Call-handle now (accepted a b c) rest h going paired k =
      Call-Plain now (accepted a b c) rest h tt k
  Call-handle now (home_frame gen msg) rest h going paired k =
      Call-Plain now (home_frame gen msg) rest h tt k
  Call-handle now (home_eof gen) rest h going paired k = Call-Plain now (home_eof gen) rest h tt k
  Call-handle now (phone_hello out bind) rest h going paired k =
      rw paired (Call-hello bind rest h (rw paired at k))
  Call-handle now (phone_text phone text) rest h going paired k =
      Call-Plain now (phone_text phone text) rest h tt k
  Call-handle now (phone_eof phone) rest h going paired k = Call-eof phone rest h k
  Call-handle now shutdown_hub rest h going paired k = elim (going refl) [ ]

  pub Call-wake :
      (now : ℕ) (deadline : Option ℕ) (queue : List ToHub) (h : Hub)
      → Call i h queue task
      → Call i (wake now deadline h) queue task
  Call-wake now deadline queue h k =
      steady i task h _ queue queue (λ q. wake-Steady i q now deadline h) refl (λ q. refl) k
