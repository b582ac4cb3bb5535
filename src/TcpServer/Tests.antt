-- ===== src/TcpServer/Tests.antt =====
-- The names of connections, where a number prints as so many ones.
use second_gear.Common.{ℕ, refl, ◌≡◌, [], ◌∷◌, replicate}
use second_gear.TcpServer.{TcpServer, Name, create, new_connection}

abbrev ones : ℕ → Name
ones n = replicate n 49

abbrev one_connection : TcpServer
one_connection = new_connection ones (create (83 ∷ [])) 4

-- The second connection is the second by name.
names :
    (new_connection ones one_connection 5).connections
    ≡ (83 ∷ 35 ∷ 49 ∷ 49 ∷ [], 5) ∷ (83 ∷ 35 ∷ 49 ∷ [], 4) ∷ []
unfolding new_connection
names = refl
