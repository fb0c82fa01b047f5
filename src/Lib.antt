-- ===== src/Lib.antt =====
-- Verification library of claim2kernel, a planner and launcher that admits a GPU kernel only under a
-- sealed contract of its calibration.
--
-- The program. A kernel profile (pkg/contract/types.go) states under which inputs, interference,
-- versions and devices the calibrated bounds of a kernel hold. pkg/contract validates profiles and
-- requests and checks seals and freshness; pkg/dra holds the metadata of an allocated device;
-- pkg/planner decides whether a request may use a profile and selects one of a catalog;
-- pkg/statecheck checks traces of the lifecycle (publish, revoke, device update, admit, dispatch,
-- complete). The planner calls pkg/contract and pkg/dra; the trace checker stands alone.
--
-- The files.
--   Base       lists, maps as association lists, integers over the native numbers, scans of texts.
--   Float64    Go's float64: exact IEEE binary64 values as integer multiples of 2^-1074, with
--              rounding to even, infinities and NaN. The two zeros are one value: no comparison
--              and no sum, product or root of the program tells them apart, but the JSON encoder,
--              a parameter here, writes a sign. No multiplication is fused with an addition.
--   Statecheck Check of pkg/statecheck/statecheck.go: one function for each case of its switch.
--              Decoding is DecodeTrace.
--              Lifecycle is the accepted lifecycle as a relation, which Handlers, Dispatching and
--              Rounds compare with the code; History is what a trace says by itself, and Linked
--              the invariant that ties the checker's state to it.
--   Contract   pkg/contract: Types (types.go), Value (value.go), Semver (semver.go), Digest
--              and Sealing (digest.go), Validate, Matrix, Paths, Checks and Fresh (validate.go),
--              Loading (the loaders of validate.go), Signature (signature.go).
--   Dra        pkg/dra/metadata.go: Validate, DevicesForRequest, Scalar and Contains; Stream is
--              DecodeMetadataStream and MetadataPath the path of a template.
--   Planner    pkg/planner/planner.go: Inputs, Envelope, Model and Devices are the checks, Evaluate
--              composes them, Select runs over a catalog. Conditions states what each check demands
--              with no decision in it, and Checks how a function that only rejects is read as a
--              condition. Samples holds a profile, a request and metadata that are run.
--   Jsonsafe   pkg/jsonsafe/jsonsafe.go over the tokens of encoding/json: RejectDuplicateKeys and
--              DecodeStrict.
--   Artifact   pkg/artifact/artifact.go: DigestFile, and the staging of a loader and its arguments,
--              over the record Os.
--   Launcher   pkg/launcher/launcher.go: Run, and limitedBuffer in Buffer. The process and its clock
--              are a parameter.
--   K8s        pkg/k8smanifest/render.go: Render and its names. An object is what varies in it.
--   Cli        cmd/c2k/main.go: the files that the commands write, over the record FileOps, and
--              cmdStatecheck in Commands.
--
-- Choices. A *Decision that the checks change is passed through them. A pointer is an Option and an
-- error a constructor; the formatted messages are left out. A range over a Go map follows an
-- association list in any order, so that what is proved holds for every order of iteration. Where Go
-- panics on an index out of range, the model returns nothing. A loop of the source that runs over a
-- list is structural recursion here. Of the loops only parseValue of pkg/jsonsafe, which calls
-- itself on a stream of tokens, takes fuel: three for each token and one more, which is proved
-- enough.
--
-- What is not code of the repository is a parameter: time.Parse, the JSON encoder and SHA-256 are
-- fields of Contract.Env.Env, ed25519 and the key files are records beside Signature, the calls of
-- os are the records Os and FileOps, and the decoder of encoding/json is a function to a value and
-- the rest. A law of such a parameter is a named hypothesis of the theorems that need it.
--
-- Not modelled: flag parsing and the bodies of the other commands, GenerateKey, the constant parts of
-- the rendered JSON, the file that ReadMetadata reads, the text of FormatViolations, the set-up of
-- a process in process_linux.go, and the demo kernel. They are I/O around the parts above.
pub mod Base
pub mod Float64
pub mod Statecheck
pub mod Contract
pub mod Dra
pub mod Planner
pub mod Jsonsafe
pub mod Artifact
pub mod Launcher
pub mod K8s
pub mod Cli
