-- ===== src/Hogwarts/Client/Tests.antt =====
-- A session of one client of HW6.
use system_programming_homew.Prelude.{◌≤◌, List, [], ◌∷◌, codes, true, some, length}
use system_programming_homew.Hogwarts.Wire.{max_line}
use system_programming_homew.Hogwarts.Client.{
  Event, sigint, socket, keyboard_end, keyboard, run_magic_client, enrolled,
}
use system_programming_homew.Hogwarts.Client.Leaving.{LeavesOnce, run_magic_client-leaves}

abbrev client_history : List Event
client_history =
    socket (some (codes "OK ENR"))
    ∷ keyboard (codes "SCROLL") true
    ∷ keyboard (codes "APPARATE") true
    ∷ keyboard_end true
    ∷ sigint true
    ∷ []

run_magic_client-leaves_example :
    let c = run_magic_client (enrolled (codes "WIZARD") (codes "harry")) client_history in
    LeavesOnce c.sent × (length c.socket_line ≤ max_line)
run_magic_client-leaves_example =
    run_magic_client-leaves (codes "WIZARD") (codes "harry") client_history
