-- ===== src/Prelude/Texts.antt =====
-- Template texts: the concatenation of two texts; and the search of a text in a text.
use Prim.Native.String.{String, ◌++◌, find, len}
use mathlib.Core.Bool.{Bool}
use package.aof.Prelude.Tests.{leb}

unfoldable pub concat : String → String → String
concat s t = s ++ t

-- `text.includes(pattern)`: a miss is found past the end.
unfoldable pub contains : String → String → Bool
contains text pattern = leb (find text pattern) (len text)
