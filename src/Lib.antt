-- ===== src/Lib.antt =====
-- Verification of k3sm.io/apis, the API module of k3sm: shared types, wire formats and their checks.
--
-- The budget page (budget/v1alpha1/page.go) is a 4096-byte file that one writer maps and many
-- readers poll. Page.Snapshot, Page.Field and Page.Fields hold PageSnapshot and the layout table
-- pageFieldSpecs; Page.Mirror is NewPageSnapshot; Page.Layout is buildPageLayout; Page.Encode is
-- EncodePage with checkPageSnapshot, over byte memories of Page.Bytes. Page.Notify is
-- PageNotifyDue. Page.Writer is PageWriter: an operation answers the list of its atomic 8-byte
-- stores in order and the writer after them, so that what a reader or a crash sees is the mapping
-- after some of these stores. Budget.Vocab and Budget.Types hold the vocabulary and the records of
-- the status that the page mirrors. Samples has concrete data, and its children apply the theorems
-- to it.
--
-- Budget.Validate is NodeBudgetObservation.Validate with the checks of its parts, and Budget.Validate.Status
-- NodeBudgetStatus.Validate (budget/v1alpha1/nodebudget.go, vocab.go and validate.go); whether an
-- observation is the zero value, asked of package reflect, is a parameter. Page.Carried composes the two
-- parts: what a producer validates, it mirrors into the page by NewPageSnapshot and EncodePage.
--
-- Budget.Annotation is budget/v1alpha1/annotationpayload.go: Parse, Encode and the strict decoder, over
-- a Codec, the record of what is used of encoding/json and reflect; Keys is checkDuplicateKeys and
-- checkExactKeys, Windows is mergeUnknownWindows, Tree the value that encoding/json builds.
--
-- Budget.Ladder, Budget.Policy and Budget.Select are the policies of budget/v1alpha1: checkLadder, the
-- validation and floors of NodeBudgetPolicySpec, and SelectPolicy. Artifact.Path is artifact/v1/path.go
-- (its child Parts has the components of a path, and Names what a component may be),
-- Artifact.Allow allowset.go and Artifact.MediaType mediatypes.go beside it.
-- Runtime.Handler is runtime/v1/handler.go. Net.Link is net/v1alpha1/linkip.go and interconnectaddr.go.
--
-- TestResults is hack/lib/testresults.go, which turns the events of a test run into an exit code under a
-- quarantine registry: TestResults.Lexer is stripComment and shellSplit, TestResults.Ids splitTestID,
-- protectedReason and parseDate, TestResults.Lines harnessReason, ownFailure and raceMarker with the
-- regular expressions written out, TestResults.Registry parseRegistry, TestResults.Collector the
-- collector, TestResults.Evaluate evaluate, and TestResults.Run the function run from its flags on. Its
-- texts are lists of code points, that is, valid UTF-8; decoding an event from JSON is a parameter.
-- TestResults.Registry.Origin follows a field of an entry back to a token of its line.
--
-- Page.Writer.System puts the writer beside its page: one store at a time, the process may die between
-- any two stores, and the next one begins with NewPageWriter and Resume. Its theorems hold while seq
-- keeps 3 below 2 ^ 64; the wrap itself, after some 2 ^ 63 publications, is left out.
--
-- Go enum strings are the native String; a string that the code walks is a list of its bytes. An int64
-- is an integer, and its word is written out modulo 2 ^ 64. A pointer that may be nil is an Option. No
-- definition needs fuel: each loop of the source is over a list or a fixed range.
--
-- Not modelled: generated code (deep copies, protocol buffers, resource manifests), the decoding of
-- JSON, the file mapping itself and the test seam headerStored; of the rest of
-- the repository the network plane (net/v1), storage/v1, mlx, updates and helm are not modelled.
pub mod Prelude
pub mod Budget
pub mod Page
pub mod Net
pub mod Artifact
pub mod Runtime
pub mod TestResults
pub mod Samples
