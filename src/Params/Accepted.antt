-- ===== src/Params/Accepted.antt =====
-- Which parameters a sender accepts, and what a sender does that was started with them.
use mathlib.Core.Bool.{false≢true}
use mathlib.Core.Option.{some-injective, some-ne-none}
use sik_telnet_radio.Prelude.{
  ℕ, ◌≤◌, ◌<◌, ◌≡◌, ◌↔◌, refl, sym, ◌∙◌, subst, Bool, true, false, not, List, Option, none, some,
  arith, ltb, if◌then◌else◌, Bool-cases, inl, inr, le→ltb,
}
use sik_telnet_radio.Outcome.{Outcome, ok, guard-passes, bind-passes, ok_inj, ok≢crash}
use sik_telnet_radio.Net.{Bytes, SockaddrIn, Resolver, get_mcast_addr}
use sik_telnet_radio.Station.{is_valid_name}
use sik_telnet_radio.Params.{is_some}
use sik_telnet_radio.Params.Sender.{
  SenderOptions, SenderParams, read_params, check_params, from_mcast_addr, from_options,
  new_sender_params,
}

-- What the checks ask for.
pub record IsValid (net : Resolver) (p : SenderParams) : Type 0 where
  pub some_bytes : 0 < p.psize
  pub fits : p.psize ≤ 65519
  pub some_cache : 0 < p.fsize
  pub valid_name : is_valid_name p.name ≡ true
  pub group : SockaddrIn
  pub multicast : get_mcast_addr net p.mcast_addr 0 ≡ some group

-- Options that ask for no help, name a group, and lead to valid parameters.
pub record Asks (net : Resolver) (now : ℕ) (parsed : Option SenderOptions) (p : SenderParams)
    : Type 0 where
  pub vm : SenderOptions
  pub parses : parsed ≡ some vm
  pub no_help : vm.help ≡ false
  pub mcast_addr : Bytes
  pub given : vm.mcast_addr ≡ some mcast_addr
  pub is_read : read_params now vm mcast_addr ≡ p
  pub valid : IsValid net p

at_least : (a b : ℕ) → not (ltb a b) ≡ true → b ≤ a
at_least a b h = ground arith

not_less : (a b : ℕ) → b ≤ a → not (ltb a b) ≡ true
not_less a b h = rw (le→ltb a b h) refl

something : {A : Type 0} (o : Option A) → is_some o ≡ true → (a : A) × (o ≡ some a)
something none h = absurd (false≢true h)
something (some a) h = (a, refl)

module _ (net : Resolver) where
  check_params-IsValid : (p q : SenderParams) → check_params net p ≡ ok q → (p ≡ q) × IsValid net p
  unfolding check_params
  check_params-IsValid p q h =
      let (h1, r1) = guard-passes _ _ _ h in
      let (h2, r2) = guard-passes _ _ _ r1 in
      let (h3, r3) = guard-passes _ _ _ r2 in
      let (h4, r4) = guard-passes _ _ _ r3 in
      let (h5, r5) = guard-passes _ _ _ r4 in
      let (group, e) = something (get_mcast_addr net p.mcast_addr 0) h5 in
      (
        ok_inj r5,
        record {
          some_bytes = at_least p.psize 1 h1;
          fits = at_least 65519 p.psize h2;
          some_cache = at_least p.fsize 1 h3;
          valid_name = h4;
          group = group;
          multicast = e;
        },
      )

  IsValid-check_params : (p : SenderParams) → IsValid net p → check_params net p ≡ ok p
  unfolding check_params
  IsValid-check_params p v =
      rw
        (
          not_less p.psize 1 v.some_bytes,
          not_less 65519 p.psize v.fits,
          not_less p.fsize 1 v.some_cache,
          v.valid_name,
          v.multicast,
        )
        refl

  mcast_addr-Asks :
      (now : ℕ) (vm : SenderOptions) (p : SenderParams) (o : Option Bytes)
      → vm.mcast_addr ≡ o
      → vm.help ≡ false
      → from_mcast_addr net now vm o ≡ ok (some p)
      → Asks net now (some vm) p
  mcast_addr-Asks now vm p none e no_help h = absurd (ok≢crash (sym h))
  mcast_addr-Asks now vm p (some mcast_addr) e no_help h =
      let (q, checks, same) = bind-passes (check_params net (read_params now vm mcast_addr)) _ h in
      let (is_q, valid) = check_params-IsValid (read_params now vm mcast_addr) q checks in
      let is_p = is_q ∙ some-injective _ _ (ok_inj same) in
      record {
        vm = vm;
        parses = refl;
        no_help = no_help;
        mcast_addr = mcast_addr;
        given = e;
        is_read = is_p;
        valid = subst (IsValid net) is_p valid;
      }

  options-Asks :
      (now : ℕ) (parsed : Option SenderOptions) (p : SenderParams)
      → from_options net now parsed ≡ ok (some p)
      → Asks net now parsed p
  options-Asks now none p h = absurd (ok≢crash (sym h))
  options-Asks now (some vm) p h = elim (Bool-cases vm.help) [
    | inl e ↦ absurd (some-ne-none p (sym (ok_inj (subst (λ b. help_first b ≡ ok (some p)) e h))))
    | inr e ↦
        mcast_addr-Asks now vm p vm.mcast_addr refl e (subst (λ b. help_first b ≡ ok (some p)) e h)
  ]
    where
      help_first : Bool → Outcome (Option SenderParams)
      help_first b = if b then ok none else from_mcast_addr net now vm vm.mcast_addr

  module _ (parse_command_line : List Bytes → Option SenderOptions) where
    -- The constructor accepts exactly the command lines that parse to options without a call for help,
    -- with a multicast address and a valid name, a packet size from 1 to 65519 and a cache size that is
    -- not 0, and then it gives the parameters that the options say.
    pub new_sender_params-Asks :
        (now : ℕ) (argv : List Bytes) (p : SenderParams)
        → (new_sender_params net parse_command_line now argv ≡ ok (some p))
          ↔ Asks net now (parse_command_line argv) p
    unfolding new_sender_params
    new_sender_params-Asks now argv p = (options-Asks now (parse_command_line argv) p, accepts)
      where
        accepts :
            Asks net now (parse_command_line argv) p
            → from_options net now (parse_command_line argv) ≡ ok (some p)
        accepts a =
            rw (a.parses, a.no_help, a.given, a.is_read, IsValid-check_params p a.valid) refl
