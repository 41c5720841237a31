-- ===== src/AsyncCib.antt =====
-- main.go: AsyncCib, the single copy of the cluster information base. A version is what its String
-- method gives; go-pacemaker makes both it and the text of a document.
pub mod Threads
pub mod Fetch
use hawk_apiserver.Prelude.{Option, none, some, []}
use hawk_apiserver.Text.{Text}

pub record AsyncCib : Type 0 where
  pub xmldoc : Text
  pub version : Option Text

-- A pacemaker.CibDocument: `ToString()` and `Version().String()`.
pub record CibDocument : Type 0 where
  pub text : Text
  pub version : Text

abbrev pub empty_cib : AsyncCib
empty_cib = record { xmldoc = []; version = none }

-- AsyncCib.Get
unfoldable pub get : AsyncCib → Text
get acib = acib.xmldoc

-- AsyncCib.Version
unfoldable pub version : AsyncCib → Option Text
version acib = acib.version

-- The part of notifyNewCib under the lock.
unfoldable pub store : CibDocument → AsyncCib → AsyncCib
store doc acib = record { xmldoc = doc.text; version = some doc.version }

-- AsyncCib.Wait, by the version that a notifyNewCib hands over before the time-out, if one does.
unfoldable pub wait : Option Text → Text → Text
wait none defval = defval
wait (some v) defval = v
