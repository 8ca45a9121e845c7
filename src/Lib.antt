-- ===== src/Lib.antt =====
-- The server of portfoliodb decides from the rows of broker statements which postings are legs of
-- one event, which groups are the two sides of one transfer, what a residual is, and which prices
-- are missing. This library models those parts of it and their laws. Paths are from the root of
-- the repository.
--
-- TxType: server/txtype/txtype.go, the tree of transaction types with MustBe, MayBe, Resolve and
-- Antichain. The enum is open, so that a type is one of the sixteen that it declares or another
-- number. TxType/Tree has the order of the tree, TxType/Resolve what Resolve answers on values of
-- the tree, TxType/Lost that it never ends on others, TxType/Declared validateBrokerTxType of
-- server/service/ingestion/validate.go, and TxType/Stored the conversions TxTypeToStr,
-- StrToTxType, TxTypesToStrs and StrsToTxTypes of server/db/db.go.
--
-- Grouping: server/grouping. Posting and Reader hold the types of server/db/db.go and grouping.go.
-- State is the type State of grouping.go, with claim for Claim, attach for Attach, group_of for
-- Group, find, union and groups; State/Find, State/Union and State/Claims relate it to an abstract
-- partition, a function that names the group of each posting, State/Steps to runs of its
-- operations, State/Groups to the groups read out. Rules and its children are the seven rules
-- (exact.go, trade.go, deposit.go, attaches.go, charge.go) as records of functions, Ordinals what
-- they compare references by. Admission has the contract that each rule keeps; Partition is
-- Partition and DefaultRules, which meet the rules through that contract only. Neighbourhood is
-- neighbourhood.go, Diff is diff.go, Engine is engine.go and Shadow is shadow.go.
--
-- TransferMatch: server/transfermatch/match.go. Pass has the partitions, one pass (run) and Match
-- (match_sides); a candidate holds the two sides that its indices name. Sound, Once and Lone are
-- its laws.
--
-- DateRange: server/db/daterange.go. Residual: server/residual/residual.go.
--
-- Vocabulary: the other conversions of server/db/db.go between enums and stored strings, with
-- ValidCurrencyCode and VintageDate; Vocabulary/Compatible is IsAssetClassCompatible,
-- Vocabulary/Spelling the law of the conversions.
--
-- Ingestion: server/service/ingestion. Validate is validate.go, which builds on TxType/Declared
-- and Vocabulary; Accepted says which rows it accepts, Money what validateAssetClasses keeps
-- apart. Weight is balance.go, with the parallel slices of its loops as one list of rows; Neutral
-- is the law of its check.
--
-- Derivative: server/derivative/parse.go. Dates, Occ and Ticker are its functions, with the
-- regular expressions as scanners; Plain and Suffix are about the parts of a symbol, RoundTrip and
-- Padded about whole ones.
--
-- CorporateEvents: server/corporateevents/option_splits.go. Sweep is its functions, from
-- ProcessPendingOptionSplits down; it uses Derivative for the symbols. The database is a
-- parameter: the pending options, and whether it takes an application, given the calls before it.
-- Mints and Restated say what is asked of it.
--
-- Identifier: server/identifier. Types is idtype.go, Listings the identifiers, venues and
-- instruments of types.go, and Hints hints.go and ticker.go with the filters of
-- server/pluginutil/pluginutil.go and HintsFromTx of server/service/ingestion/hints.go.
--
-- Identification: server/service/identification/resolve.go, the functions that compare and merge
-- the answers of plugins. Merge has them; Admission, Claims and Blanks are about consistentWith,
-- flattenClaims and fillBlanks. Compare has the functions that hold an answer against what a
-- source stated, and Confirmed relates the three of them. Proposals is proposalOutcomes, and
-- Tested says when one is confirmed. A normalizer of MICs and a lookup of countries are arguments,
-- which may be nil.
--
-- Common and Go hold what the rest is written in: numbers, lists, Go's strings as bytes, maps as
-- association lists, stable sorting, int64 with its wrap-around, times as nanoseconds. Package
-- decimal is not part of the repository: its decimals are a type with operations, an argument of
-- every definition that uses them. The store behind a reader is an argument too. A function that
-- changes a state takes it and returns it. An error is a value of Result. Contexts, telemetry and
-- logging are left out.
--
-- Fuel: find has one round for each entry, which find-Finds shows to be enough. under has four,
-- for a tree of three levels below its root, and Resolve four for each climb. A neighbourhood has
-- the fuel that its caller gives. A run that is out of fuel answers none, as does a read out of
-- range in Diff. Resolve has no answer on a set on which it never ends. The rules take resolve,
-- with a value in its place; partition_run, which the engine runs, answers none for such a set,
-- also where a rule has named the type of the posting and the call is spared.
--
-- Not modelled: the workers and timers, the SQL of server/db/postgres, the services, plugins,
-- archives and clients. Package strings is modelled on ASCII text, and a date as a day in UTC.
pub mod Common
pub mod Go
pub mod TxType
pub mod Grouping
pub mod TransferMatch
pub mod DateRange
pub mod Residual
pub mod Vocabulary
pub mod Ingestion
pub mod Derivative
pub mod CorporateEvents
pub mod Identifier
pub mod Identification
pub mod Samples
