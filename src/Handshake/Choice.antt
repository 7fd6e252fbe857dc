-- ===== src/Handshake/Choice.antt =====
-- The algorithms that are chosen.
use flatline.Common.{
  ℕ, ◌≡◌, refl, sym, ap, ◌∙◌, ◌⊎◌, inl, inr, true, false, Bool-cases, none, some, List, [], ◌∷◌,
  ◌++◌, All, Result, ok, err, panicked, negotiation_failed,
}
use mathlib.Core.Path.{subst}
use flatline.Common.Text.{same_bytes_refl}
use flatline.Handshake.{
  Config, Methods, MatchedMethods, contains, remove_first, from_config, do_compat, libssh_curve,
  first_match, negotiate,
}

-- The first of the client's names that the server has too.
pub record IsFirst (client server : List (List ℕ)) (x : List ℕ) : Type 0 where
  pub before : List (List ℕ)
  pub after : List (List ℕ)
  pub split : client ≡ before ++ x ∷ after
  pub common : contains x server ≡ true
  pub others : All (λ y. contains y server ≡ false) before

abbrev pub NoneCommon : List (List ℕ) × List (List ℕ) → Type 0
NoneCommon (client, server) = All (λ y. contains y server ≡ false) client

abbrev FirstOrNone : List (List ℕ) → List (List ℕ) → Type 0
FirstOrNone client server =
    ((x : List ℕ) × (first_match client server ≡ some x) × IsFirst client server x)
    ⊎ ((first_match client server ≡ none) × NoneCommon (client, server))

first_match_lem : (client server : List (List ℕ)) → FirstOrNone client server
unfolding first_match
first_match_lem [] server = inr (refl, tt)
first_match_lem (x ∷ xs) server = elim (Bool-cases (contains x server)) [
  | inl hit ↦
      inl (
        x,
        rw hit refl,
        record { before = []; after = xs; split = refl; common = hit; others = tt },
      )
  | inr miss ↦ elim (first_match_lem xs server) [
    | inl (y, found, h) ↦ inl (
      y,
      rw miss found,
      record {
        before = x ∷ h.before;
        after = h.after;
        split = ap (◌∷◌ x) h.split;
        common = h.common;
        others = (miss, h.others);
      },
    )
    | inr (missing, h) ↦ inr (rw miss missing, (miss, h))
  ]
]

-- The eight categories.
abbrev pub categories : Config → Methods → List (List (List ℕ) × List (List ℕ))
categories c s =
    (c.kex, s.kex)
    ∷ (c.host_key, s.host_key)
    ∷ (c.crypt_client_to_server, s.crypt_client_to_server)
    ∷ (c.crypt_server_to_client, s.crypt_server_to_client)
    ∷ (c.mac_client_to_server, s.mac_client_to_server)
    ∷ (c.mac_server_to_client, s.mac_server_to_client)
    ∷ (c.compress_client_to_server, s.compress_client_to_server)
    ∷ (c.compress_server_to_client, s.compress_server_to_client)
    ∷ []

abbrev pub SomeCategory :
    (List (List ℕ) × List (List ℕ) → Type 0) → List (List (List ℕ) × List (List ℕ)) → Type 0
SomeCategory P [] = ⊥
SomeCategory P (x ∷ xs) = P x ⊎ SomeCategory P xs

pub record AllFirst (c : Config) (s : Methods) (m : MatchedMethods) : Type 0 where
  pub kex : IsFirst c.kex s.kex m.kex
  pub host_key : IsFirst c.host_key s.host_key m.host_key
  pub crypt_client_to_server :
      IsFirst c.crypt_client_to_server s.crypt_client_to_server m.crypt_client_to_server
  pub crypt_server_to_client :
      IsFirst c.crypt_server_to_client s.crypt_server_to_client m.crypt_server_to_client
  pub mac_client_to_server :
      IsFirst c.mac_client_to_server s.mac_client_to_server m.mac_client_to_server
  pub mac_server_to_client :
      IsFirst c.mac_server_to_client s.mac_server_to_client m.mac_server_to_client
  pub compress_client_to_server :
      IsFirst c.compress_client_to_server s.compress_client_to_server m.compress_client_to_server
  pub compress_server_to_client :
      IsFirst c.compress_server_to_client s.compress_server_to_client m.compress_server_to_client

-- RFC 4253, 7.1: what a negotiation has to give.
abbrev pub Agrees : Config → Methods → Result MatchedMethods → Type 0
Agrees c s (ok m) = AllFirst c s m
Agrees c s (err e) = (e ≡ negotiation_failed) × SomeCategory NoneCommon (categories c s)
Agrees c s panicked = ⊥

-- For every configuration and every offer of the server, the negotiation chooses in each of the eight
-- categories the first of the client's names that the server offers too; it fails exactly with a
-- negotiation error, and then there is a category without a common name.
pub negotiate-Agrees : (c : Config) (s : Methods) → Agrees c s (negotiate c s)
unfolding negotiate
negotiate-Agrees c s = elim (first_match_lem c.kex s.kex) [
  | inr (missing0, h) ↦ rw missing0 (refl, inl h)
  | inl (x0, found0, h0) ↦ rw found0 (elim (first_match_lem c.host_key s.host_key) [
    | inr (missing1, h) ↦ rw missing1 (refl, inr (inl h))
    | inl (x1, found1, h1) ↦
        rw found1 (elim (first_match_lem c.crypt_client_to_server s.crypt_client_to_server) [
          | inr (missing2, h) ↦ rw missing2 (refl, inr (inr (inl h)))
          | inl (x2, found2, h2) ↦
              rw found2 (elim (first_match_lem c.crypt_server_to_client s.crypt_server_to_client) [
                | inr (missing3, h) ↦ rw missing3 (refl, inr (inr (inr (inl h))))
                | inl (x3, found3, h3) ↦
                    rw found3
                      (elim (first_match_lem c.mac_client_to_server s.mac_client_to_server) [
                        | inr (missing4, h) ↦ rw missing4 (refl, inr (inr (inr (inr (inl h)))))
                        | inl (x4, found4, h4) ↦
                            rw found4
                              (elim (first_match_lem c.mac_server_to_client
                                s.mac_server_to_client) [
                                  | inr (missing5, h) ↦
                                      rw missing5 (refl, inr (inr (inr (inr (inr (inl h))))))
                                  | inl (x5, found5, h5) ↦
                                      rw found5
                                        (elim (first_match_lem c.compress_client_to_server
                                          s.compress_client_to_server) [
                                            | inr (missing6, h) ↦
                                                rw missing6
                                                  (refl, inr (inr (inr (inr (inr (inr (inl h)))))))
                                            | inl (x6, found6, h6) ↦
                                                rw found6
                                                  (elim (first_match_lem c.compress_server_to_client
                                                    s.compress_server_to_client) [
                                                      | inr (missing7, h) ↦ rw missing7 (
                                                        refl,
                                                        inr (
                                                            inr
                                                            (inr (inr (inr (inr (inr (inl h))))))),
                                                      )
                                                      | inl (x7, found7, h7) ↦ rw found7 (record {
                                                        kex = h0;
                                                        host_key = h1;
                                                        crypt_client_to_server = h2;
                                                        crypt_server_to_client = h3;
                                                        mac_client_to_server = h4;
                                                        mac_server_to_client = h5;
                                                        compress_client_to_server = h6;
                                                        compress_server_to_client = h7;
                                                      })
                                                    ])
                                          ])
                                ])
                      ])
              ])
        ])
  ])
]

contains-remove_first :
    (x : List ℕ) (xs : List (List ℕ))
    → contains x xs ≡ false
    → contains x (remove_first x (x ∷ xs)) ≡ false
unfolding remove_first
contains-remove_first x xs h = rw (same_bytes_refl x) h

first-head :
    (x : List ℕ) (rest server : List (List ℕ)) (y : List ℕ) (before after : List (List ℕ))
    → x ∷ rest ≡ before ++ y ∷ after
    → contains x server ≡ true
    → All (λ z. contains z server ≡ false) before
    → y ≡ x
first-head x rest server y [] after e hit others = cc
first-head x rest server y (z ∷ before) after e hit (miss, others) = absurd (cc)

-- For a server that asks for it the client leaves the libssh name of curve25519 out of its offer, but not
-- out of the negotiation: where that name stands first in the client's table, and once, and the server offers
-- it, every successful negotiation chooses a key exchange that the client has not offered.
pub negotiate-do_compat :
    (c : Config) (s : Methods) (rest : List (List ℕ)) (m : MatchedMethods)
    → c.kex ≡ libssh_curve ∷ rest
    → contains libssh_curve rest ≡ false
    → contains libssh_curve s.kex ≡ true
    → negotiate c s ≡ ok m
    → (contains libssh_curve (do_compat true (from_config c)).kex ≡ false) × (m.kex ≡ libssh_curve)
unfolding do_compat from_config
negotiate-do_compat c s rest m first once offered agreed =
    let h : AllFirst c s m = subst (Agrees c s) agreed (negotiate-Agrees c s) in
    (
      ap (λ kex. contains libssh_curve (remove_first libssh_curve kex)) first
          ∙ contains-remove_first libssh_curve rest once,
      first-head libssh_curve rest s.kex m.kex h.kex.before h.kex.after (sym first ∙ h.kex.split)
          offered h.kex.others,
    )
