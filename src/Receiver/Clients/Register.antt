-- ===== src/Receiver/Clients/Register.antt =====
-- Which id a new client gets.
use mathlib.Core.Bool.{false≢true}
use sik_telnet_radio.Prelude.{
  ℕ, zero, suc, ◌+◌, ◌≤◌, ◌<◌, ◌≡◌, refl, ap, sym, ◌∙◌, ◌⊎◌, dec_lt, arith, true, false, Option,
  none, some, Bool-cases, inl, inr,
}
use sik_telnet_radio.Outcome.{Outcome, ok, crash, thrown}
use sik_telnet_radio.Receiver.Clients.{
  quiet, Menu, put, is_open, emplace, register_from, register_client,
}

-- An id that is free, behind ids that are not, and what the menu is with the descriptor there.
pub record Free (m : Menu) (fd first : ℕ) (run : Outcome (ℕ × Menu)) : Type 0 where
  pub id : ℕ
  pub from : first ≤ id
  pub free : m.poll_fds id ≡ none
  pub taken : (j : ℕ) → first ≤ j → j < id → is_open (m.poll_fds j) ≡ true
  pub runs :
      run
      ≡ ok (
        id,
        emplace
            (record m { poll_fds = put m.poll_fds id (some fd); revents = put m.revents id quiet })
            id
            fd
            (m.clients id),
      )

-- No id is free, and the run throws.
abbrev pub Full : Menu → ℕ → ℕ → Outcome (ℕ × Menu) → Type 0
Full m first n run =
    (run ≡ crash thrown) × ((j : ℕ) → first ≤ j → j < first + n → is_open (m.poll_fds j) ≡ true)

closed_none : (p : Option ℕ) → is_open p ≡ false → p ≡ none
closed_none none h = refl
closed_none (some fd) h = absurd (false≢true (sym h))

at_or_behind :
    (m : Menu) (first : ℕ)
    → is_open (m.poll_fds first) ≡ true
    → (j end : ℕ) → ((j : ℕ) → first + 1 ≤ j → j < end → is_open (m.poll_fds j) ≡ true)
    → first ≤ j
    → j < end
    → is_open (m.poll_fds j) ≡ true
at_or_behind m first h j end rest lo hi = elim (dec_lt first j) [
  | yes behind ↦ rest j (omega arith) hi
  | no here ↦ ap (λ i. is_open (m.poll_fds i)) {y = first} (omega arith) ∙ h
]

register_from-cases :
    (n : ℕ) (m : Menu) (first fd : ℕ)
    → ((r : Free m fd first (register_from n m first fd)) × (r.id < first + n))
      ⊎ Full m first n (register_from n m first fd)
unfolding register_from
register_from-cases zero m first fd = inr (refl, λ j lo hi. absurd (omega arith))
register_from-cases (suc n) m first fd = elim (Bool-cases (is_open (m.poll_fds first))) [
  | inr e ↦ inl (
    record {
      id = first;
      from = omega arith;
      free = closed_none (m.poll_fds first) e;
      taken = λ j lo hi. absurd (omega arith);
      runs = rw e refl;
    },
    omega arith,
  )
  | inl e ↦ elim (register_from-cases n m (first + 1) fd) [
    | inl (r, inside) ↦ inl (
      record {
        id = r.id;
        from = omega (arith, r.from);
        free = r.free;
        taken = λ j lo hi. at_or_behind m first e j r.id r.taken lo hi;
        runs = rw e r.runs;
      },
      omega (arith, inside),
    )
    | inr (throws, all) ↦ inr (
      rw e throws,
      λ j lo hi. at_or_behind m first e j (first + 1 + n) (λ i a b. all i a b) lo (omega arith),
    )
  ]
]

-- A new client gets the least of the ids from 2 to 43 that is free, and its descriptor is polled from
-- then on; if none is free, the registration throws, and only then.
pub register_client-least :
    (m : Menu) (fd : ℕ)
    → ((r : Free m fd 2 (register_client m fd)) × (r.id < 44)) ⊎ Full m 2 42 (register_client m fd)
unfolding register_client
register_client-least m fd = register_from-cases 42 m 2 fd
