-- ===== src/Tests/Accepts.antt =====
-- `PMemServer::Listen` with three clients.
use pmraccess.Base.{◌≤◌, ◌≡◌, refl, true, [], ◌∷◌, length}
use pmraccess.Outcome.{done}
use pmraccess.Pmem.Listen.{Answers, Clerks, Apart, listen, no_clerks, listen_lem}

abbrev accepted : Answers
accepted = record { mapped = true; connected = true }

abbrev three : Clerks
three = record { clerk_num = 3; offsets = 33554432 ∷ 16777216 ∷ 0 ∷ [] }

listens : listen (accepted ∷ accepted ∷ accepted ∷ []) no_clerks ≡ done three
unfolding listen
listens = refl

listen_lem_example : Apart three.offsets × (length three.offsets ≤ 128)
listen_lem_example = listen_lem (accepted ∷ accepted ∷ accepted ∷ []) three listens
