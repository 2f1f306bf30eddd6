-- ===== src/Provision/Shell.antt =====
-- sh_single_quote and the command of exec_argv in provision.rs.
pub mod Laws
use mailserver.Prelude.{ℕ, List, [], ◌∷◌, ◌++◌, ◌==◌, if◌then◌else◌, Text, codes, map}
use mailserver.Config.Entries.{join_with}

unfoldable pub escaped : Text → Text
escaped [] = []
escaped (c ∷ s) = if c == b'\'' then codes "'\\''" ++ escaped s else c ∷ escaped s

unfoldable pub sh_single_quote : Text → Text
unfolding escaped
sh_single_quote s = b'\'' ∷ (escaped s ++ b'\'' ∷ [])

-- The command that exec_argv sends.
unfoldable pub command_of : Text → List Text → Text
unfolding sh_single_quote join_with
command_of program args = join_with (codes " ") (sh_single_quote program ∷ map sh_single_quote args)
