-- ===== src/Lib.antt =====
-- Helix core: verifiable credentials, presentations and delegation.
--
-- The program issues credentials to software agents, lets an agent pass a part of its scopes on, and
-- verifies the presentations that agents sign. A presentation carries agent credentials, each with the
-- chain of credentials that it was delegated by, and the consent grants that users gave. The verifier
-- resolves DIDs to documents, checks signatures against the documents' keys, reads revocation bits from
-- status lists, walks delegation chains, and returns the scopes that the agent holds and those that the
-- grants let it use.
--
-- Files and the code that each is about:
--   Prelude          Boolean tests, lists, JavaScript sets of strings
--   Errors           src/core/errors/HelixError.ts and codes.ts: classes, codes, statuses, messages
--   Action           a method over the state of its service; what was written before a rejection stays
--   Result           what an `async` function resolves to or is rejected with; `await` is the bind
--   Text, Json       text as code units; JSON values as zod reads them
--   Base58           base58btcEncode and base58btcDecode of src/core/crypto/vp.ts
--   Credential       the data of src/core/schemas/vc.ts, vp.ts and delegation-grant.ts
--   DidDocument      documents and multibase keys of src/core/crypto/did.ts and keys.ts
--                    (Build: documents and their service endpoints; Services: adding and removing one)
--   DidResolver      src/core/did-resolver.ts: Key (did:key), Web (did:web and its URL), and the cache of
--                    documents; Laws and Secure are about them
--   Proof            verifyEd25519Proof of src/core/proof.ts
--   StatusList       src/core/status-list/index.ts and schema.ts
--   Verifier         src/core/vp-verifier.ts: Host (what it takes from outside), Vc (one credential),
--                    Chain (a delegation chain), Vp (verifyVP); and what they guarantee: Trust, Links,
--                    Delegated, Agents, Authorities, Grants, Run, Soundness
--   Delegation       buildDelegationVC of src/core/delegation.ts
--   ChainIntegrity   validateChainIntegrity of src/core/schemas/vc.ts
--   Cache            src/cache: the interface with the laws that its clients rely on, the cache in the
--                    process, the one that holds nothing, the two layers; Refinement is about any of them
--   Scopes           findScopeProblem of src/core/schemas/privilegeScopes.ts
--   VcLookup         src/core/vc-lookup.ts
--   VcStore          src/repositories/vc.repository.ts and the driver in memory of
--                    src/repositories/drivers/vc.drivers.ts
--   VpBuilder        src/core/vp-builder.ts
--   Grant            src/core/grant.ts
--   AgentStore       src/repositories/agent.repository.ts and the driver in memory of
--                    src/repositories/drivers/agent.drivers.ts
--   DidStore         src/repositories/did.repository.ts and the driver in memory of
--                    src/repositories/drivers/did.drivers.ts
--   ServiceStore     src/repositories/service.repository.ts and the driver in memory of
--                    src/repositories/drivers/service.drivers.ts
--   DidService       src/services/did/did.service.ts: Mint (what a method makes of a key), Create, Resolve
--                    and Update are its methods. Coherence, Steps, Changes and Reached are about its cache of
--                    documents; Deactivation, Permanent and Forever about deactivated DIDs; Laws and Created
--                    about what a caller sees
--   KeyStore         src/repositories/did-key.repository.ts and the driver in memory of
--                    src/repositories/drivers/did-key.drivers.ts
--   AgentService     src/services/agent/agent.service.ts: Enrollment, Challenge, Onboarding, Custody,
--                    Presenting and Delegating are its methods; Once, Verified, Inheritance and Sources are
--                    about them
--   ServiceProvider  src/services/service-provider/service-provider.service.ts: Enroll and Granting are its
--                    methods; Consent and Granted are about the scopes of a grant
--   VpService        src/services/vp/vp.service.ts, with signedVPSchema of src/core/schemas/vp.ts; Laws and Errors
--                    are about it
--   VcService        src/services/vc/vc.service.ts: status lists and their cache; Reconcile, Issue,
--                    Register, Manage and Listing are its other methods. Allotment, Issued, Revocation,
--                    Rejections, Statuses, Replacement and Race are about them; Coherence, Steps and
--                    Reached about the cache of status lists
--
-- A function of the program keeps its name in snake case: `verifyVP` is `verify_vp`. A function that may
-- throw returns a `Result`; a loop is a recursion over the list that it walks, with the variables that
-- it changes in a record (`AgentState`, `GrantState`), and a `catch` is a case on the result. The one
-- loop on fuel is the `while (carry > 0)` of base58: its fuel is the carry itself, which is enough since
-- a carry is divided in each round. A set is the list of its members in the order of insertion, an
-- instant a number of milliseconds, a key, a hash or a signature the list of its bytes.
--
-- Outside these files, or of another library, and so a parameter: DID resolution, `fetch`, the clock,
-- JavaScript's `Date` and `Number`, zod's formats of dates and URLs, SHA-256 and ed25519 (the fields of
-- `Host`); gzip and base64 (`Codec`, with the laws that unzipping undoes zipping and decoding undoes
-- encoding); the random values, the clock and the signing of the builders of delegations,
-- presentations and grants (`Stamps`, `Wallet`, `Draws`, `GrantDraws`, `IssuerKeyMaterial`).
--
-- The credential service keeps rows, a cache of status lists and an audit log in a `World`. It reaches its
-- cache through `ICache`, a record of operations with laws that the caches of src/cache fill, so that what
-- is said of the service holds with each of them. The DID service, signing and hashing are the fields of
-- its `Platform`; the clock and the random id are arguments of a call, which reads the clock as one
-- instant. The columns of a row hold parsed credentials, never their text. Dates that the service computes
-- are within what a `Date` holds; a date that was read from a text may be invalid (`JsDate`). A status list
-- that the service returns is the encoded text that the credential around it is built from.
--
-- The DID service keeps rows, a cache of documents and the resolver's cache in a `DidWorld`; Hedera is a part
-- of its `DidPlatform`, whose calls may answer or throw anything. The agent service reaches the DID and the
-- credential service through `Services`, a record of actions on a state of their own, and keeps its tokens,
-- challenges and keys in an `AgentWorld`. A key in these services is its hexadecimal text, as in the source;
-- the private key stays with the custody, whose uses of it are fields of `AgentPlatform`. A `catch` that
-- changes the error is `thrown_as`.
--
-- Not modelled: the HTTP routes and the server, the drivers that send queries to a database, Redis, the
-- encryption of keys, the ledger clients and the audit log's storage, which carry requests and records in and out.
pub mod Prelude
pub mod Errors
pub mod Result
pub mod Action
pub mod Text
pub mod Json
pub mod Base58
pub mod Credential
pub mod DidDocument
pub mod Proof
pub mod StatusList
pub mod Verifier
pub mod Delegation
pub mod ChainIntegrity
pub mod Cache
pub mod Scopes
pub mod VcLookup
pub mod VcStore
pub mod VcService
pub mod AgentService
pub mod AgentStore
pub mod DidResolver
pub mod DidService
pub mod DidStore
pub mod Grant
pub mod KeyStore
pub mod ServiceProvider
pub mod ServiceStore
pub mod VpBuilder
pub mod VpService
