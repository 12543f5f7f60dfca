-- ===== src/Lib.antt =====
-- Orbitport: the plugins that stand behind the gateway.
--
-- The gateway passes a request to one of several plugins over gRPC. This library models the parts of
-- the plugins (plugins/pkg) that decide something.
--
-- ChaCha20 is plugins/pkg/chacha20, the generator that stretches a master seed. Hex is the part of
-- encoding/hex that the plugins use. MasterSeed is
-- plugins/pkg/plugin/masterseed/master_seed.go with the checked arithmetic at the end of plugin.go,
-- and SeedPool is the rest of that plugin.go: the rolling pool of seeds, the unbiased choice of one,
-- and the cursor that each seed keeps in its keystream. SeedPool calls MasterSeed, and MasterSeed
-- calls ChaCha20.
--
-- Text is a text with the functions of strings and unicode that the plugins use, and Base64 is the
-- encoder of encoding/base64, with Base64.Codec for its four encodings. Text.Dict is a Go map with text keys, as a list of its entries.
--
-- Threshold is plugins/pkg/plugin/threshold: Request is `dkgRequestFromProto` of plugin.go; Session and
-- Coordinate are coordinator.go and types.go: the retries, the seeds of a session, the four rounds and
-- the final agreement. The nodes and the clock answer from the record of the calls made so far.
--
-- Kms is part of plugins/pkg/plugin/kms: Spec is mapping.go, Tenant is tenant.go with the checks of
-- aliases and clients in plugin.go, and KeyStore is key_store.go, key_store_openbao.go and
-- key_store_authorizer.go, with `joinPath` of openbao.go: the names and paths, the request that is put
-- to Cedar (Handlers), and the four operations (Operations). Blob is blob.go, Calls is the records and calls
-- of openbao.go, and Cipher is Encrypt, Decrypt, GenerateDataKey and RotateKey of plugin.go with
-- transit_provider.go behind them. Ethereum is the signing of ethereum_provider.go. The text syntax of JSON is an
-- argument of Blob, which writes out the members of a blob by their tags and what reading them does. OpenBao answers
-- from the record of the calls made so far, as the nodes of Threshold do.
--
-- Beacon is plugins/pkg/plugin/beacon: Types is types.go, Scheduler is scheduler.go, Registry is the
-- loading and creation of the registry in plugin.go, and Builder is builder.go with
-- `loadLastBeaconBlock` of plugin.go. Builder calls MasterSeed; the IPFS plugin, the seed pool's plugin,
-- the generator and the clock answer from the record of the calls made so far (Ipfs). A head that is
-- read is given with what its JSON parses as.
--
-- Pat is the personal access tokens. Transit and Issuer are plugins/pkg/plugin/patissuer: transit.go,
-- plugin.go and the interface of signer.go. Cache and Auth are plugins/pkg/plugin/auth/pat.go with
-- ValidateToken of plugin.go, and Service is ValidateServiceToken of that file. Publisher is plugins/pkg/plugin/jwks/plugin.go. The
-- issuer's answer to GetJwks is what both caches fetch; OpenBao and the clock answer from the calls made so far. Types has
-- the claims, and the public keys with the equation of P-256. A JSON text stands for what it parses as,
-- but for the two parts of a token, whose bytes are arguments.
--
-- Base holds what the others share: Base.Result is Go's pair of a value and an error, and Base.Traced is
-- code that calls other programs, as a function from the calls so far to its result and the calls then.
--
-- Texts and byte arrays are lists of numbers. Machine integers are natural numbers, with the
-- wrap-around and the checks of the source written out. A mutex makes an operation one step, so an
-- operation is a function from a state to a state. What the operating system and the satellites
-- give (random words, fetched seeds, SHA-256) are arguments.
--
-- Fuel: a turn of FillBytes copies a byte at least, so the length of the destination is fuel enough
-- (ChaCha20.Position.fill_bytes-stream). The loop of cryptoRandIndex runs over the words that
-- the source of randomness gives; it has not ended where they are used up.
--
-- The lookup of the registry is tried five times, so its fuel is 4, the tries after the first.
--
-- Logging, metrics, and the wiring of gRPC and configuration are not modelled: they decide nothing.
pub mod Base
pub mod ChaCha20
pub mod Hex
pub mod Base64
pub mod Text
pub mod MasterSeed
pub mod SeedPool
pub mod Threshold
pub mod Kms
pub mod Beacon
pub mod Pat
