-- ===== src/Enricher/Document/Clients.antt =====
-- The clients that are looked up for an issuer are a set: each of them once, in order.
use ubki_uploader.Prelude.{ℕ, ◌≡◌, Bool, ◌&&◌, String, List, any, IsRising, ◌==◌}
use ubki_uploader.Python.Json.{Builtins}
use ubki_uploader.Enricher.Cabinet.{Row}
use ubki_uploader.Enricher.Document.{needs_issuer}

abbrev pub has_id : ℕ → List ℕ → Bool
has_id n = any (λ m. m == n)

-- A row of the client needs an issuer.
abbrev pub is_in_need : Builtins → (n : ℕ) → List (String × Row) → Bool
is_in_need py n = any (λ (entry : String × Row). needs_issuer py entry.1 && entry.1.user_id == n)

-- A list of clients that stands for the set of those in need.
pub record IsSetInNeed (py : Builtins) (rows : List (String × Row)) (ns : List ℕ) : Type 0 where
  pub rising : IsRising ns
  pub exact : (n : ℕ) → has_id n ns ≡ is_in_need py n rows
