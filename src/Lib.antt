-- ===== src/Lib.antt =====
-- Coruscant keeps a knowledge graph of companies and answers questions about exposure over it.
--
-- The parts that are modelled, and how they work together:
--
--   Graph: the nodes and edges of src/coruscant/common/types.py, the in-memory store of
--   src/coruscant/knowledge_graph/memory.py (Graph.Memory: a record of its three fields, one function
--   per method, which returns the new store), and the policy on edges of
--   src/coruscant/knowledge_graph/substrate.py (Graph.Substrate). Graph.Reach is `reachable` of
--   src/coruscant/knowledge_graph/store.py. Graph.Memory.Histories says what the store holds after a
--   sequence of writes, without the index. pydantic's `model_dump` and `model_validate`, which the
--   snapshots go through, are the fields of the record `Models`, an argument of `to_dict` and `from_dict`
--   over any type of rows; that validation gives back what was dumped is IsFaithful. Python's dicts are association lists
--   in insertion order, its sets are lists with no element twice (Prelude.Dict, Prelude).
--   Exposure: the traversals of src/coruscant/exposure/ownership_graph.py. Exposure.Chains is
--   `ownership_chains`; Exposure.Chains.Routes says, apart from the walk, which chains there are.
--   Exposure.Contagion is `group_contagion`, a breadth-first search.
--   Exposure.Queries: the queries of src/coruscant/exposure/queries.py, one module for each panel:
--   Owners (`ownership_overview`, `company_owners`), Profile (`entity_profile`, `list_entities`), Panels
--   (`screening_overview`, `resolution_overview`), Funds, Places (countries and jurisdictions), Sectors
--   (with the market tiers), Gics, Commodities (with debt), People (`co_executives`), Hops
--   (`company_network`) and Portfolio, which puts the queries on a pathway and on a fund together.
--   Exposure.Queries.Hidden has the store without the edges above a clearance. Python's methods on
--   texts that need its tables of characters (strip, lower, upper, int, str) are the fields of the
--   record `Text`, an argument of the queries that call them.
--
--   Resolution: the log of judgements on entities and `cluster`, of
--   src/coruscant/knowledge_graph/resolution.py. A set of two entities is the ordered pair of them, a
--   frozenset is a list with a number for the object it is, a dict that is only looked up is a function.
--   SHA-256 is a parameter of `cluster`. Resolution.Canonical is the projection of the clusters into
--   the store of Graph.Memory.
--   Workspaces: src/coruscant/workspaces/store.py. The tables are lists of rows, each transaction is a
--   function from tables to tables; Workspaces.Effects has them as one type of operations. Rows are
--   found in the order of their insertion, and the numbers of the members' rows are left out.
--   Accounts: src/coruscant/auth. The users' table is a list of rows in the order of insertion, and a
--   method of `AuthService` takes the table and returns the one that it leaves. The clock, the salts and
--   the reset tokens are arguments. Bytes are texts, and PBKDF2, HMAC, base64, JSON, the numbers and the
--   text functions are the fields of the record `Platform`; what the theorems ask of them is in IsCodec
--   and IsHashing. The payload of a token is a JSON object, the rounds of a hash are at least 1.
--   ApiKeys: src/coruscant/enterprise/api_keys.py, on a list of rows again. What `secrets` makes and the
--   time are arguments; SHA-256, JSON and dates are the fields of the record `Codec`, and what the
--   theorems ask of JSON is in IsJson. ApiKeys.Runs has the writes as one type of operations. The
--   upgrade of a table that an older version made is left out.
--   RateLimit: the limiter of src/coruscant/apps/ratelimit.py. The minute is an argument of `allow`. The
--   code reads the clock before it takes the lock: the lock makes the updates follow one another, but
--   does not put them in the order of their minutes, which is a hypothesis of the theorem.
--
-- Texts are native strings; Python's order on them is the order of their code points. Property values
-- are texts, numbers that are not negative, truth values, lists of texts and null; a float is a count
-- of ten-thousandths. A call that may raise returns a `Result`.
--
-- The `while` loop of `ownership_chains` runs on fuel: `budget` of the number of edges and of the hops
-- that are left bounds the frames below one frame, and the theorem on termination shows that the fuel
-- is enough. Those of `group_contagion` and `reachable` have one round for the start and two for
-- each edge, since no node is put into the queue twice; so has the loop of `company_network`.
--
-- Not modelled: `coverage_overview`, whose run nodes hold nested dicts; the fixed texts in the results;
-- the web and command line front ends, the connectors, the other stores on SQLite and the one on Kùzu,
-- which are input and output; the ingestion, the watchlists, the organisations, the portfolios, the
-- intelligence, the search, the coverage and the matching of texts; logging; the parsing of dates, since a date is taken as its ISO text.
pub mod Prelude
pub mod Graph
pub mod Exposure
pub mod Resolution
pub mod RateLimit
pub mod Workspaces
pub mod Accounts
pub mod ApiKeys
