-- ===== src/Response/Layout.antt =====
-- Linked chunks on the heap: what a list of nodes looks like in memory, and how the writes of the
-- queue change it.
use mod_http.Common.{
  ℕ, suc, ◌+◌, ◌-◌, ◌≤◌, ◌<◌, ◌≡◌, refl, ◌≢◌, ◌∙◌, Bool, false, Option, none, some, List, [], ◌∷◌,
  ◌++◌, Bytes, ◌||◌, ◌==◌, arith, length,
}
use mod_http.Response.{Chunk, update, link}

-- A chunk of the queue, without its link.
pub record Node : Type 0 where
  pub addr : ℕ
  pub bytes : Bytes
  pub acked : ℕ

-- The address of the first node, and of the last.
abbrev pub first : List Node → Option ℕ
first [] = none
first (n ∷ ns) = some n.addr

abbrev pub last : List Node → Option ℕ
last [] = none
last (n ∷ []) = some n.addr
last (n ∷ m ∷ ns) = last (m ∷ ns)

abbrev pub chunk_of : Node → Option ℕ → Chunk
chunk_of n next = record { next = next; bytes = n.bytes; acked = n.acked }

-- The nodes lie in memory, each linked to the one after it.
abbrev pub Laid : (ℕ → Option Chunk) → List Node → Type 0
Laid cells [] = Unit {0}
Laid cells (n ∷ ns) = (cells n.addr ≡ some (chunk_of n (first ns))) × Laid cells ns

-- The addresses rise from `lo` and stay below `brk`.
abbrev pub Rising : ℕ → List Node → ℕ → Type 0
Rising lo [] brk = lo ≤ brk
Rising lo (n ∷ ns) brk = (lo ≤ n.addr) × Rising (suc n.addr) ns brk

-- Whether `a` is the address of a node.
abbrev pub owns : List Node → ℕ → Bool
owns [] a = false
owns (n ∷ ns) a = (n.addr == a) || owns ns a

-- The bytes that count towards `response_buffered`.
abbrev pub unacked : List Node → ℕ
unacked [] = 0
unacked (n ∷ ns) = (length n.bytes - n.acked) + unacked ns

abbrev pub bytes_of : List Node → Bytes
bytes_of [] = []
bytes_of (n ∷ ns) = n.bytes ++ bytes_of ns

abbrev pub fresh_node : ℕ → Bytes → Node
fresh_node a bytes = record { addr = a; bytes = bytes; acked = 0 }

pub Rising-le : (lo brk : ℕ) (ns : List Node) → Rising lo ns brk → lo ≤ brk
Rising-le lo brk [] r = r
Rising-le lo brk (n ∷ ns) r = omega (arith, Rising-le (suc n.addr) brk ns r.1)

pub Rising-weaken :
    (lo lo' brk : ℕ) (ns : List Node) → lo' ≤ lo → Rising lo ns brk → Rising lo' ns brk
Rising-weaken lo lo' brk [] h r = omega arith
Rising-weaken lo lo' brk (n ∷ ns) h r = (omega arith, r.1)

pub Rising-snoc :
    (lo brk : ℕ) (ns : List Node) (bytes : Bytes)
    → Rising lo ns brk
    → Rising lo (ns ++ fresh_node brk bytes ∷ []) (suc brk)
Rising-snoc lo brk [] bytes r = (r, omega arith)
Rising-snoc lo brk (n ∷ ns) bytes r = (r.0, Rising-snoc (suc n.addr) brk ns bytes r.1)

pub update_self : (cells : ℕ → Option Chunk) (a : ℕ) (v : Option Chunk) → update cells a v a ≡ v
unfolding update
update_self cells a v = ground arith

pub update_ne :
    (cells : ℕ → Option Chunk) (a : ℕ) (v : Option Chunk) (x : ℕ)
    → x ≢ a
    → update cells a v x ≡ cells x
unfolding update
update_ne cells a v x h = ground arith

-- A write below all the nodes, or above, leaves them as they lie.
pub Laid-update_below :
    (cells : ℕ → Option Chunk) (lo brk a : ℕ) (v : Option Chunk) (ns : List Node)
    → a < lo
    → Rising lo ns brk
    → Laid cells ns
    → Laid (update cells a v) ns
Laid-update_below cells lo brk a v [] h r l = tt
Laid-update_below cells lo brk a v (n ∷ ns) h r l = (
  rw (update_ne cells a v n.addr (omega arith)) l.0,
  Laid-update_below cells (suc n.addr) brk a v ns (omega arith) r.1 l.1,
)

pub Laid-update_above :
    (cells : ℕ → Option Chunk) (lo brk a : ℕ) (v : Option Chunk) (ns : List Node)
    → brk ≤ a
    → Rising lo ns brk
    → Laid cells ns
    → Laid (update cells a v) ns
Laid-update_above cells lo brk a v [] h r l = tt
Laid-update_above cells lo brk a v (n ∷ ns) h r l = (
  rw (update_ne cells a v n.addr (omega (arith, Rising-le (suc n.addr) brk ns r.1))) l.0,
  Laid-update_above cells (suc n.addr) brk a v ns h r.1 l.1,
)

-- Linking behind the last node writes to no address below the nodes.
link_below :
    (cells : ℕ → Option Chunk) (lo brk : ℕ) (ns : List Node) (b x : ℕ)
    → x < lo
    → Rising lo ns brk
    → link (last ns) b cells x ≡ cells x
unfolding link
link_below cells lo brk [] b x h r = refl
link_below cells lo brk (n ∷ []) b x h r = ground (arith, update_ne cells n.addr _ x)
link_below cells lo brk (n ∷ m ∷ ns) b x h r =
    link_below cells (suc n.addr) brk (m ∷ ns) b x (omega arith) r.1

-- Nor to an address that is none of the nodes'.
pub link_above :
    (cells : ℕ → Option Chunk) (lo brk : ℕ) (ns : List Node) (b x : ℕ)
    → brk ≤ x
    → Rising lo ns brk
    → link (last ns) b cells x ≡ cells x
unfolding link
link_above cells lo brk [] b x h r = refl
link_above cells lo brk (n ∷ []) b x h r = ground (arith, update_ne cells n.addr _ x)
link_above cells lo brk (n ∷ m ∷ ns) b x h r = link_above cells (suc n.addr) brk (m ∷ ns) b x h r.1

-- A new chunk `b` above the nodes, linked behind the last of them.
Laid-link :
    (cells : ℕ → Option Chunk) (lo b : ℕ) (bytes : Bytes) (ns : List Node)
    → cells b ≡ some (chunk_of (fresh_node b bytes) none)
    → Rising lo ns b
    → Laid cells ns
    → Laid (link (last ns) b cells) (ns ++ fresh_node b bytes ∷ [])
unfolding link
Laid-link cells lo b bytes [] e r l = (e, tt)
Laid-link cells lo b bytes (n ∷ []) e r l = (
  rw (l.0, link) (update_self cells n.addr _),
  (rw (l.0, link) (update_ne cells n.addr _ b (omega arith) ∙ e), tt),
)
Laid-link cells lo b bytes (n ∷ m ∷ ns) e r l = (
  link_below cells (suc n.addr) b (m ∷ ns) b n.addr (omega arith) r.1 ∙ l.0,
  Laid-link cells (suc n.addr) b bytes (m ∷ ns) e r.1 l.1,
)

-- Pushing a chunk at the first unused address.
pub Laid-push :
    (cells : ℕ → Option Chunk) (brk : ℕ) (bytes : Bytes) (ns : List Node)
    → Rising 0 ns brk
    → Laid cells ns
    → Laid
        (link (last ns) brk (update cells brk (some (chunk_of (fresh_node brk bytes) none))))
        (ns ++ fresh_node brk bytes ∷ [])
Laid-push cells brk bytes ns r l =
    Laid-link _ 0 brk bytes ns (update_self cells brk _) r
      (Laid-update_above cells 0 brk brk _ ns (omega arith) r l)

pub unacked-append : (ns ms : List Node) → unacked (ns ++ ms) ≡ unacked ns + unacked ms
unacked-append [] ms = omega arith
unacked-append (n ∷ ns) ms = omega (arith, unacked-append ns ms)

pub first-append : (ns : List Node) (m : Node) → first (ns ++ m ∷ []) ≢ none
first-append [] m e = cc
first-append (n ∷ ns) m e = cc

pub last-append : (ns : List Node) (m : Node) → last (ns ++ m ∷ []) ≡ some m.addr
last-append [] m = refl
last-append (n ∷ []) m = refl
last-append (n ∷ k ∷ ns) m = last-append (k ∷ ns) m

pub owns_above :
    (lo brk : ℕ) (ns : List Node) (a : ℕ) → Rising lo ns brk → brk ≤ a → owns ns a ≡ false
owns_above lo brk [] a r h = refl
owns_above lo brk (n ∷ ns) a r h =
    ground (arith, owns_above (suc n.addr) brk ns a r.1 h, Rising-le (suc n.addr) brk ns r.1)

pub owns_below :
    (lo brk : ℕ) (ns : List Node) (a : ℕ) → Rising lo ns brk → a < lo → owns ns a ≡ false
owns_below lo brk [] a r h = refl
owns_below lo brk (n ∷ ns) a r h = ground (arith, owns_below (suc n.addr) brk ns a r.1)

pub Rising-length : (lo brk : ℕ) (ns : List Node) → Rising lo ns brk → lo + length ns ≤ brk
Rising-length lo brk [] r = omega arith
Rising-length lo brk (n ∷ ns) r = omega (arith, Rising-length (suc n.addr) brk ns r.1)
