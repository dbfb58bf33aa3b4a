-- ===== src/Hogwarts/Session/Tests.antt =====
-- A small server of HW6 with two clients, and what its operations do there.
use system_programming_homew.Prelude.{
  ℕ, ◌+◌, ◌-◌, ◌≤◌, ◌<◌, ◌≡◌, refl, true, false, ◌⊎◌, List, [], ◌∷◌, ◌++◌, arith, some, codes, take,
  length,
}
use system_programming_homew.Libc.Tokens.{tokens}
use system_programming_homew.Hogwarts.Wire.{max_line, SendReply, taken, interrupted}
use system_programming_homew.Hogwarts.State.{Ingredient, Client, Server}
use system_programming_homew.Hogwarts.State.Names.{Inv}
use system_programming_homew.Hogwarts.Handlers.{
  update_client, reply, is_wizard, stock_of, spell_of, brew, consume,
}
use system_programming_homew.Hogwarts.Handlers.Stock.{IsHeld, Becomes, consume-exact, brew-adds}
use system_programming_homew.Hogwarts.Session.{
  is_delimiter, process_command, feed_client_data, Input, connection, received, hung_up,
  time_passed, run, free_slots,
}
use system_programming_homew.Hogwarts.Session.Framing.{then_feed, feed-line}
use system_programming_homew.Hogwarts.Session.Invariant.{run-Inv}
use system_programming_homew.Hogwarts.Session.Roles.{stock_is_for_wizards}

abbrev root : Ingredient
root = record { name = codes "ROOT"; qty = 10 }

abbrev wizard : Client
wizard = record {
  fd = some 5;
  username = codes "luna";
  kind = codes "WIZARD";
  line_buf = [];
  discard_long_line = false;
  last_active = 100;
  spellbook = 3 ∷ [];
}

abbrev newcomer : Client
newcomer = record {
  fd = some 6;
  username = [];
  kind = [];
  line_buf = [];
  discard_long_line = false;
  last_active = 40;
  spellbook = 0 ∷ [];
}

abbrev school : Server
school = record { ingredients = root ∷ []; clients = wizard ∷ newcomer ∷ []; timeout_seconds = 30 }

abbrev empty_school : Server
empty_school = record { ingredients = root ∷ []; clients = free_slots 2; timeout_seconds = 30 }

-- Two clients try the same name; the first goes silent.
abbrev history : List (ℕ × Input)
history =
    (1, connection true 5)
    ∷ (2, connection true 6)
    ∷ (3, received 0 (codes "ENROLL WIZARD luna" ++ 10 ∷ []))
    ∷ (4, received 1 (codes "ENROLL PROFESSOR luna" ++ 10 ∷ []))
    ∷ (40, time_passed)
    ∷ (41, hung_up 1)
    ∷ []

run-Inv_example : Inv 2 (run empty_school history).0.clients
run-Inv_example = run-Inv 2 empty_school history refl

feed-line_example :
    let c' = record wizard { line_buf = [] } in
    let h =
      then_feed 110 0 (codes "OT 4" ++ 10 ∷ []) (feed_client_data 110 school 0 (codes "BREW RO")) in
    ((length wizard.line_buf + length (codes "BREW RO" ++ codes "OT 4") ≤ max_line)
      × (h
          ≡ process_command 110
              (update_client school 0 c')
              0
              c'
              (wizard.line_buf ++ (codes "BREW RO" ++ codes "OT 4"))))
    ⊎ ((max_line < length wizard.line_buf + length (codes "BREW RO" ++ codes "OT 4"))
        × (h ≡ record {
          server =
              update_client school 0 (record wizard { discard_long_line = false; line_buf = [] });
          events = reply wizard (codes "ERR TOOLONG");
          gone = false;
        }))
feed-line_example =
    feed-line 110 0 school wizard (codes "BREW RO") (codes "OT 4") refl refl (omega arith)
      (refl, (refl, (refl, (refl, (refl, (refl, (refl, (refl, (refl, (refl, (refl, tt)))))))))))

newcomer-not_wizard : is_wizard newcomer ≡ false
newcomer-not_wizard = refl

stock_is_for_wizards_example :
    (process_command 50 school 1 newcomer (codes "BREW ROOT 4")).server.ingredients
    ≡ school.ingredients
stock_is_for_wizards_example =
    stock_is_for_wizards 50 school 1 newcomer (codes "BREW ROOT 4") newcomer-not_wizard

brew-words :
    take 8 (tokens is_delimiter (codes "BREW ROOT 4"))
    ≡ codes "BREW" ∷ codes "ROOT" ∷ codes "4" ∷ []
unfolding tokens
brew-words = refl

root-IsHeld : IsHeld school wizard 0
root-IsHeld = record {
  listed = omega arith;
  booked = omega arith;
  stock_pos = omega arith;
  spell_pos = omega arith;
}

consume-exact_example :
    ((2 ≤ stock_of school 0)
      × (2 ≤ spell_of wizard 0)
      × Becomes school
          (consume school 0 wizard 0 2).0
          0
          wizard
          0
          (stock_of school 0 - 2)
          (spell_of wizard 0 - 2))
    ⊎ (((stock_of school 0 < 2) ⊎ (spell_of wizard 0 < 2))
        × (consume school 0 wizard 0 2
            ≡ (school, reply wizard (codes "ERR INSUFFICIENT_INGREDIENTS"))))
consume-exact_example = consume-exact school 0 wizard 0 2 root-IsHeld (omega arith)

brew-adds_example :
    Becomes school
      (brew school 0 wizard 0 4).0
      0
      wizard
      0
      (stock_of school 0 + 4)
      (spell_of wizard 0 + 4)
brew-adds_example = brew-adds school 0 wizard 0 4 root-IsHeld (omega arith) (omega arith)

abbrev send_replies : List SendReply
send_replies = taken 2 ∷ interrupted ∷ taken 3 ∷ []
