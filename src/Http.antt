-- ===== src/Http.antt =====
-- What a handler answers. A handler reads and changes the world of the database; the request is
-- handed to it decoded, since gin and its validator are not code of this repository.
use proindustrial_backend.Common.{ℕ}
use proindustrial_backend.Common.Text.{Text, codes}
use proindustrial_backend.Database.{Action, Result, World}

-- `c.JSON(status, gin.H{"error": message})`, or `c.JSON(status, gin.H{"data": a})`.
pub data Reply (A : Type 0) : Type 0 where
  refuse : ℕ → Text → Reply A
  answer : ℕ → A → Reply A

abbrev pub Handler : Type 0 → Type 0
Handler A = World → Reply A × World

abbrev pub status : {A : Type 0} → Reply A → ℕ
status (refuse code message) = code
status (answer code a) = code

abbrev pub internal_error : {A : Type 0} → Reply A
internal_error = refuse 500 (codes "error interno del servidor")

-- A repository call, whose result decides how the handler goes on.
unfoldable pub call : {A B : Type 0} → Action A → (Result A → Handler B) → Handler B
call m k w = let (r, w') = m w in k r w'

abbrev pub respond : {A : Type 0} → Reply A → Handler A
respond reply w = (reply, w)
