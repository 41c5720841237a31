-- ===== src/Proxy/Headers/HopByHop.antt =====
-- Which fields of the backend's response reach the client.
use hawk_apiserver.Prelude.{
  ◌≡◌, refl, Bool, false, not, ◌||◌, List, [], ◌∷◌, none, ◌==◌, text_eq, text_beq, if◌then◌else◌,
  Bool-cases, inl, inr, arith,
}
use hawk_apiserver.Text.{Text, codes, split, trim_space}
use hawk_apiserver.Map.{lookup}
use hawk_apiserver.Map.Laws.{lookup-delete}
use hawk_apiserver.Http.{Header, canonical, get, del}
use hawk_apiserver.Proxy.Headers.{hop_headers, del_all, del_listed, remove_hop_headers}

-- The field is the one that some name of the list stands for.
pub named : Text → List Text → Bool
named j [] = false
named j (k ∷ ks) = canonical k == j || named j ks

-- The names in a list of parts, without white space and without empty ones.
pub names_of : List Text → List Text
names_of [] = []
names_of (f ∷ fs) = if trim_space f == [] then names_of fs else trim_space f ∷ names_of fs

-- The names that a Connection header lists.
pub connection_names : Header → List Text
connection_names h = names_of (split (get h (codes "Connection")) b',')

lookup-del_all :
    (ks : List Text) (h : Header) (j : Text)
    → lookup (del_all ks h) j ≡ (if named j ks then none else lookup h j)
unfolding del_all named del
lookup-del_all [] h j = refl
lookup-del_all (k ∷ ks) h j =
    ground (arith, lookup-del_all ks (del h k) j, lookup-delete h (canonical k) j)

del_listed-del_all : (fs : List Text) (h : Header) → del_listed fs h ≡ del_all (names_of fs) h
unfolding del_listed del_all names_of
del_listed-del_all [] h = refl
del_listed-del_all (f ∷ fs) h = elim (Bool-cases (trim_space f == [])) [
  | inl e ↦ rw e (del_listed-del_all fs h)
  | inr e ↦ rw e (del_listed-del_all fs (del h (trim_space f)))
]

listed : Text → Header → Header
listed c h = if not (c == []) then del_listed (split c b',') h else h

listed-del_all : (c : Text) (h : Header) → listed c h ≡ del_all (names_of (split c b',')) h
unfolding listed del_all names_of split text_beq trim_space
listed-del_all [] h = refl
listed-del_all (b ∷ c) h = del_listed-del_all (split (b ∷ c) b',') h

-- A field of the response is gone if it is a hop-by-hop header or the Connection header lists it,
-- and is unchanged otherwise.
pub lookup-remove_hop_headers :
    (h : Header) (j : Text)
    → lookup (remove_hop_headers h) j
      ≡ (if named j hop_headers || named j (connection_names h) then none else lookup h j)
unfolding remove_hop_headers connection_names listed
lookup-remove_hop_headers h j =
    let c = get h (codes "Connection") in
    rw (listed-del_all c h) (
      ground (
        arith,
        lookup-del_all hop_headers (del_all (names_of (split c b',')) h) j,
        lookup-del_all (names_of (split c b',')) h j,
      ))
