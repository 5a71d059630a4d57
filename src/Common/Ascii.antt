-- ===== src/Common/Ascii.antt =====
-- Byte string literals: `b"..."`.
use Prim.Native.String.{String}
use Prim.Native.Char.{code}
use mathlib.Core.List.{List}
use novachannel.Common.Lists.{Bytes}

unfoldable pub ascii : String → Bytes
ascii String.[] = List.[]
ascii (String.◌∷◌ c s) = List.◌∷◌ (code c) (ascii s)
